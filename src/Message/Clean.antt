-- ===== src/Message/Clean.antt =====
-- Deleted messages keep no edits (`rebuild_actions_state_with_permissions` of
-- common/src/board_state/message.rs).
use free_talk.Shared.{
  ◌≡◌, inl, inr, arith, true, Option, none, Option-cases, contains, Bool-cases, ◌==◌, nat_eq,
}
use free_talk.Shared.HashMap
use free_talk.Shared.HashMap.{HashMap}
use free_talk.Shared.HashSet
use free_talk.Shared.HashSet.{HashSet}
use free_talk.Model.{
  Crypto, Cbor, Bytes, MemberId, MessageId, ActionContentV1, MessageActionsState, MessagesV1,
  action_type_edit, action_type_delete, action_type_reaction, action_type_remove_reaction,
  action_type_edit_category,
}
use free_talk.Message.Body.{edit_payload, reaction_payload, category_edit_payload}
use free_talk.Message.Actions.{
  no_actions, act_edit, act_delete, act_reaction, act_remove_reaction, act_edit_category, act,
  message_authors, category_ids, rebuild_actions_state_with_permissions,
}
use free_talk.Message.ActionLaws.{act_all-keeps}

module _ (b : Cbor) (authors : HashMap MessageId MemberId) (categories : HashSet MessageId)
    (owner : Option MemberId) (admins : Option (HashSet MemberId)) where
  -- A deleted message has no edited text and no edited category.
  IsClean : MessageId → MessageActionsState → Type 0
  IsClean k s =
      contains s.deleted k ≡ true
      → (HashMap.get k s.edited_content ≡ none) × (HashMap.get k s.edited_categories ≡ none)

  act_edit-IsClean :
      (k : MessageId) (actor : MemberId) (a : ActionContentV1) (s : MessageActionsState)
      → IsClean k s
      → IsClean k (act_edit b authors categories owner admins actor a s)
  unfolding act_edit IsClean
  act_edit-IsClean k actor a s clean = elim (Option-cases (edit_payload b a)) [
    | inl e ↦ rw (act_edit, e) clean
    | inr (p, e) ↦
        rw (act_edit, e)
          (λ h. ground (arith, clean, HashMap.get-insert a.target k p.new_text s.edited_content))
  ]

  act_edit_category-IsClean :
      (k : MessageId) (actor : MemberId) (a : ActionContentV1) (s : MessageActionsState)
      → IsClean k s
      → IsClean k (act_edit_category b authors categories owner admins actor a s)
  unfolding act_edit_category IsClean
  act_edit_category-IsClean k actor a s clean = elim (Option-cases (category_edit_payload b a)) [
    | inl e ↦ rw (act_edit_category, e) clean
    | inr (p, e) ↦
        rw (act_edit_category, e)
          (λ h. ground (arith, clean, HashMap.get-insert a.target k p s.edited_categories))
  ]

  act_delete-IsClean :
      (k : MessageId) (actor : MemberId) (a : ActionContentV1) (s : MessageActionsState)
      → IsClean k s
      → IsClean k (act_delete b authors categories owner admins actor a s)
  unfolding act_delete IsClean
  act_delete-IsClean k actor a s clean h = ground (
    arith,
    clean,
    HashMap.get-remove a.target k s.edited_content,
    HashMap.get-remove a.target k s.edited_categories,
    HashSet.contains-insert a.target k s.deleted,
  )

  act_reaction-IsClean :
      (k : MessageId) (actor : MemberId) (a : ActionContentV1) (s : MessageActionsState)
      → IsClean k s
      → IsClean k (act_reaction b authors categories owner admins actor a s)
  unfolding act_reaction IsClean
  act_reaction-IsClean k actor a s clean = elim (Option-cases (reaction_payload b a)) [
    | inl e ↦ rw (act_reaction, e) clean
    | inr (p, e) ↦ rw (act_reaction, e) (λ h. ground (arith, clean))
  ]

  act_remove_reaction-IsClean :
      (k : MessageId) (actor : MemberId) (a : ActionContentV1) (s : MessageActionsState)
      → IsClean k s
      → IsClean k (act_remove_reaction b authors categories owner admins actor a s)
  unfolding act_remove_reaction IsClean
  act_remove_reaction-IsClean k actor a s clean = elim (Option-cases (reaction_payload b a)) [
    | inl e ↦ rw (act_remove_reaction, e) clean
    | inr (p, e) ↦ rw (act_remove_reaction, e) (λ h. clean h)
  ]

  act-IsClean :
      (k : MessageId) (actor : MemberId) (a : ActionContentV1) (s : MessageActionsState)
      → IsClean k s
      → IsClean k (act b authors categories owner admins actor a s)
  unfolding act
  act-IsClean k actor a s clean = elim (Bool-cases (a.action_type == action_type_edit)) [
    | inl edit ↦ rw edit (act_edit-IsClean k actor a s clean)
    | inr other ↦ rw other (elim (Bool-cases (a.action_type == action_type_delete)) [
      | inl del ↦ rw del (act_delete-IsClean k actor a s clean)
      | inr other ↦ rw other (elim (Bool-cases (a.action_type == action_type_reaction)) [
        | inl react ↦ rw react (act_reaction-IsClean k actor a s clean)
        | inr other ↦ rw other (elim (Bool-cases (a.action_type == action_type_remove_reaction)) [
          | inl unreact ↦ rw unreact (act_remove_reaction-IsClean k actor a s clean)
          | inr other ↦ rw other (elim (Bool-cases (a.action_type == action_type_edit_category)) [
            | inl category ↦ rw category (act_edit_category-IsClean k actor a s clean)
            | inr other ↦ rw other clean
          ])
        ])
      ])
    ])
  ]

-- A deleted message has neither an edited text nor an edited category, whatever the order of the
-- actions is.
pub rebuild_deleted_clean :
    (b : Cbor) (c : Crypto) (self : MessagesV1) (plain : HashMap MessageId Bytes)
    (owner : Option MemberId) (admins : Option (HashSet MemberId)) (k : MessageId)
    → contains
        (rebuild_actions_state_with_permissions b c self plain owner admins).actions_state.deleted
        k
      ≡ true
    → (HashMap.get k
          (rebuild_actions_state_with_permissions b c self plain owner
            admins).actions_state.edited_content
        ≡ none)
      × (HashMap.get k
            (rebuild_actions_state_with_permissions b c self plain owner
              admins).actions_state.edited_categories
          ≡ none)
unfolding rebuild_actions_state_with_permissions IsClean
rebuild_deleted_clean b c self plain owner admins k h =
    act_all-keeps b c plain owner admins (message_authors b c self.messages)
      (category_ids b c self.messages)
      (IsClean b (message_authors b c self.messages) (category_ids b c self.messages) owner admins
        k)
      (act-IsClean b (message_authors b c self.messages) (category_ids b c self.messages) owner
        admins k)
      self.messages no_actions (λ n. cc) h
