-- ===== src/Message/Forged.antt =====
-- A message with a signature that nobody made (`apply_delta` and `verify` of
-- common/src/board_state/message.rs).
use free_talk.Shared.{◌≤◌, ◌≡◌, ◌≢◌, refl, arith, true, false, [], ◌∷◌, some, ok, err, nat_eq}
use free_talk.Shared.HashMap
use free_talk.Shared.Order.{sort_by}
use free_talk.Model.{
  Crypto, Cbor, AuthorizedMessageV1, AuthorizedMember, MessagesV1, ChatBoardStateV1,
  ChatBoardParametersV1, invalid_message_signature, message_id,
}
use free_talk.Member.Chain.{owner_id, members_by_member_id}
use free_talk.Message.Body.{content_len}
use free_talk.Message.Actions.{
  rebuild_actions_state, rebuild_actions_state_with_permissions, no_actions,
}
use free_talk.Message.Apply.{
  max_message_size, stays, unseen, validate, check_message, verify, check_content, settle,
  apply_delta,
}

abbrev pub no_messages : MessagesV1
no_messages = record { messages = []; actions_state = no_actions }

module _ (c : Crypto) (b : Cbor) (state : ChatBoardStateV1) (p : ChatBoardParametersV1)
    (m : AuthorizedMessageV1) (x : AuthorizedMember) where
  single_stays :
      content_len m.message.content ≤ max_message_size state
      → HashMap.contains_key m.message.author (members_by_member_id c state.members) ≡ true
      → stays c state p m ≡ true
  unfolding stays
  single_stays short member = ground arith

  single_settled :
      stays c state p m ≡ true → (settle c b state p (m ∷ []) no_messages).messages ≡ m ∷ []
  unfolding settle rebuild_actions_state rebuild_actions_state_with_permissions sort_by
  single_settled s = rw s refl

  forged_refused :
      m.message.author ≢ owner_id c p
      → HashMap.get m.message.author (members_by_member_id c state.members) ≡ some x
      → validate c m x.member.member_vk ≡ false
      → check_message c (members_by_member_id c state.members) p m
        ≡ err (invalid_message_signature (message_id c m))
  unfolding check_message
  forged_refused other found forged = ground (arith, found, forged)

  -- A delta may add a message in a member's name whose signature is not the member's: `apply_delta`
  -- checks that the author is a member but no signature, and the verification of the messages then fails.
  pub apply_delta_forged :
      check_content c b state m ≡ ok tt
      → content_len m.message.content ≤ max_message_size state
      → m.message.author ≢ owner_id c p
      → HashMap.contains_key m.message.author (members_by_member_id c state.members) ≡ true
      → HashMap.get m.message.author (members_by_member_id c state.members) ≡ some x
      → validate c m x.member.member_vk ≡ false
      → (r : MessagesV1) × (apply_delta c b no_messages state p (some (m ∷ [])) ≡ ok r)
        × (r.messages ≡ m ∷ [])
        × (verify c r state p ≡ err (invalid_message_signature (message_id c m)))
  unfolding apply_delta unseen verify
  apply_delta_forged checked short other member found forged =
      let settled = single_settled (single_stays short member) in
      (
        settle c b state p (m ∷ []) no_messages,
        rw checked refl,
        settled,
        rw settled (rw (forged_refused other found forged) refl),
      )
