-- ===== src/Member/Apply.antt =====
-- common/src/board_state/member.rs: a delta of members.
use free_talk.Shared.{ℕ, List, Option, none, some, Result, ok, err, ◌>>◌, for_each}
use free_talk.Shared.Dedup.{push_new, or_insert_all}
use free_talk.Shared.Order.{sort_by_key}
use free_talk.Model.{
  Crypto, AuthorizedMember, ChatBoardStateV1, ChatBoardParametersV1, Error, out_of_fuel, member_id,
}
use free_talk.Member.Chain.{members_by_member_id, verify_member_invite_with_lookup}
use free_talk.Member.Downstream.{remove_banned_members}

module _ (c : Crypto) where
  -- The last part of `apply_delta`: banned members go, and the others are sorted.
  unfoldable pub settle :
      List AuthorizedMember → (fuel : ℕ) → ChatBoardStateV1 → Result Error (List AuthorizedMember)
  settle members fuel parent_state = elim (remove_banned_members c members fuel parent_state.bans) [
    | none ↦ err out_of_fuel
    | some rest ↦ ok (sort_by_key (member_id c) rest)
  ]

  unfoldable pub apply_delta :
      List AuthorizedMember
      → (fuel : ℕ) → ChatBoardStateV1
      → ChatBoardParametersV1
      → Option (List AuthorizedMember)
      → Result Error (List AuthorizedMember)
  apply_delta self fuel parent_state parameters none = settle self fuel parent_state
  apply_delta self fuel parent_state parameters (some added) = do
    let combined = or_insert_all (member_id c) (members_by_member_id c self) added
    for_each (λ member. verify_member_invite_with_lookup c member parameters combined) added
    settle (push_new (member_id c) self added) fuel parent_state
