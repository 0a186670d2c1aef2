-- ===== src/Message/ActionLaws.antt =====
-- What the action messages can do (`rebuild_actions_state_with_permissions` of
-- common/src/board_state/message.rs).
use free_talk.Shared.{
  ◌≡◌, inl, inr, refl, sym, subst, Bool, false, ◌&&◌, List, [], ◌∷◌, Option, none, some,
  Option-cases, ◌==◌, nat_eq, list_eq,
}
use free_talk.Shared.HashMap.{HashMap}
use free_talk.Shared.HashSet
use free_talk.Shared.HashSet.{HashSet}
use free_talk.Model.{
  Crypto, Cbor, Bytes, MemberId, MessageId, ActionContentV1, AuthorizedMessageV1,
  MessageActionsState, action_type_delete,
}
use free_talk.Message.Actions.{is_author, act, action_of, act_all}

module _ (b : Cbor) (authors : HashMap MessageId MemberId) (categories : HashSet MessageId)
    (owner : Option MemberId) (admins : Option (HashSet MemberId)) where
  -- The action deletes `k`: its actor is the author of `k`.
  abbrev pub deletes : (actor : MemberId) → ActionContentV1 → MessageId → Bool
  deletes actor a k =
      a.action_type == action_type_delete
      && (a.target == k && is_author b authors categories owner admins a.target actor)

module _ (b : Cbor) (c : Crypto) (plain : HashMap MessageId Bytes) (owner : Option MemberId)
    (admins : Option (HashSet MemberId)) where
  module _ (authors : HashMap MessageId MemberId) (categories : HashSet MessageId) where
    abbrev pub deletes_of : Option ActionContentV1 → (actor : MemberId) → MessageId → Bool
    deletes_of none actor k = false
    deletes_of (some a) actor k = deletes b authors categories owner admins actor a k

    -- The message deletes `k`.
    abbrev pub message_deletes : AuthorizedMessageV1 → MessageId → Bool
    message_deletes m k = deletes_of (action_of b c plain m) m.message.author k

    act_all-none :
        (m : AuthorizedMessageV1) (messages : List AuthorizedMessageV1) (s : MessageActionsState)
        → action_of b c plain m ≡ none
        → act_all b c authors categories plain owner admins (m ∷ messages) s
          ≡ act_all b c authors categories plain owner admins messages s
    unfolding act_all
    act_all-none m messages s e = rw (act_all, e) refl

    act_all-some :
        (m : AuthorizedMessageV1) (messages : List AuthorizedMessageV1) (s : MessageActionsState)
        (a : ActionContentV1)
        → action_of b c plain m ≡ some a
        → act_all b c authors categories plain owner admins (m ∷ messages) s
          ≡ act_all b c authors categories plain owner admins messages
              (act b authors categories owner admins m.message.author a s)
    unfolding act_all
    act_all-some m messages s a e = rw (act_all, e) refl

    -- What every action keeps, the loop keeps.
    pub act_all-keeps :
        (P : MessageActionsState → Type 0)
        → ((actor : MemberId) (a : ActionContentV1) (s : MessageActionsState)
            → P s
            → P (act b authors categories owner admins actor a s))
        → (messages : List AuthorizedMessageV1) (s : MessageActionsState) → P s
        → P (act_all b c authors categories plain owner admins messages s)
    unfolding act_all
    act_all-keeps P keeps [] s h = h
    act_all-keeps P keeps (m ∷ messages) s h = elim (Option-cases (action_of b c plain m)) [
      | inl e ↦ subst P (sym (act_all-none m messages s e)) (act_all-keeps P keeps messages s h)
      | inr (a, e) ↦ subst P (sym (act_all-some m messages s a e)) (
          act_all-keeps P keeps messages
            (act b authors categories owner admins m.message.author a s)
            (keeps m.message.author a s h))
    ]
