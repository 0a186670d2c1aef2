-- ===== src/Message/ApplyLaws.antt =====
-- What an accepted delta of messages leaves (`apply_delta` of common/src/board_state/message.rs).
use free_talk.Shared.{
  ◌≤◌, ◌≡◌, ◌⊎◌, inl, inr, refl, sym, ◌∙◌, subst, ap, arith, true, false, List, ◌++◌, Option, none,
  some, ok, >>=-eq-ok, for_each, retain, All, All-retain, All-of_All, Bool-cases, ◌==◌, nat_eq,
  nat_beq_iff, leb-total,
}
use free_talk.Shared.HashMap
use free_talk.Shared.Order.{sort_by, SortedBy, sort_by-SortedBy, All-sort_by}
use free_talk.Model.{
  Crypto, Cbor, AuthorizedMessageV1, MessagesV1, ChatBoardStateV1, ChatBoardParametersV1,
  message_id,
}
use free_talk.Member.Chain.{owner_id, members_by_member_id}
use free_talk.Message.Body.{content_len}
use free_talk.Message.Actions.{rebuild_actions_state, rebuild_actions_state_with_permissions}
use free_talk.Message.Apply.{
  max_message_size, message_le, stays, unseen, check_content, settle, apply_delta,
}

module _ (c : Crypto) (b : Cbor) (state : ChatBoardStateV1) (p : ChatBoardParametersV1) where
  -- The messages before the retention.
  abbrev pub gathered : MessagesV1 → Option (List AuthorizedMessageV1) → List AuthorizedMessageV1
  gathered self none = self.messages
  gathered self (some ds) = self.messages ++ unseen c self ds

  pub apply_delta_step :
      (self r : MessagesV1) (d : Option (List AuthorizedMessageV1))
      → apply_delta c b self state p d ≡ ok r
      → r ≡ settle c b state p (gathered self d) self
  unfolding apply_delta
  apply_delta_step self r none h = cc
  apply_delta_step self r (some ds) h =
      let q =
        >>=-eq-ok (for_each (check_content c b state) ds)
          (λ _. ok (settle c b state p (self.messages ++ unseen c self ds) self)) h in
      let e = q.1 in cc (q.2)

  message_le-total :
      (x y : AuthorizedMessageV1) → message_le c x y ≡ false → message_le c y x ≡ true
  unfolding message_le
  message_le-total x y h = ground (arith, leb-total (message_id c x) (message_id c y))

  message_le_trans :
      (x y z : AuthorizedMessageV1)
      → message_le c x y ≡ true
      → message_le c y z ≡ true
      → message_le c x z ≡ true
  unfolding message_le
  message_le_trans x y z h k = ground arith

  -- Within the size limit, by the owner or a member.
  abbrev pub IsAllowed : AuthorizedMessageV1 → Type 0
  IsAllowed m =
      (content_len m.message.content ≤ max_message_size state)
      × ((HashMap.contains_key m.message.author (members_by_member_id c state.members) ≡ true)
          ⊎ (m.message.author ≡ owner_id c p))

  stays-IsAllowed : (m : AuthorizedMessageV1) → stays c state p m ≡ true → IsAllowed m
  unfolding stays
  stays-IsAllowed m h = (
    ground arith,
    elim (Bool-cases (m.message.author == owner_id c p)) [
      | inl owner ↦ inr ((nat_beq_iff m.message.author (owner_id c p)).0 owner)
      | inr other ↦ inl (ground arith)
    ],
  )

  pub kept_messages :
      (messages : List AuthorizedMessageV1) (self : MessagesV1)
      → (settle c b state p messages self).messages
        ≡ sort_by (message_le c) (retain (stays c state p) messages)
  unfolding settle rebuild_actions_state rebuild_actions_state_with_permissions
  kept_messages messages self = refl

  -- After an accepted delta every message is within the size limit and by the owner or a member, and
  -- the messages are sorted by time and identifier.
  pub apply_delta-IsAllowed :
      (self r : MessagesV1) (d : Option (List AuthorizedMessageV1))
      → apply_delta c b self state p d ≡ ok r
      → All IsAllowed r.messages × SortedBy (message_le c) r.messages
  apply_delta-IsAllowed self r d h =
      let eq =
        ap (λ (z : MessagesV1). z.messages) (apply_delta_step self r d h)
        ∙ kept_messages (gathered self d) self in
      subst (λ l. All IsAllowed l × SortedBy (message_le c) l) (sym eq)
        (
          All-sort_by (message_le c) IsAllowed (retain (stays c state p) (gathered self d)) (
              All-retain (λ m. Unit {0}) IsAllowed (stays c state p) (gathered self d)
                (λ m u s. stays-IsAllowed m s)
                (All-of_All (λ m. Unit {0}) (gathered self d) (λ m. tt))),
          sort_by-SortedBy (message_le c) message_le-total message_le_trans
              (retain (stays c state p) (gathered self d)),
        )
