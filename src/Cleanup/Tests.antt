-- ===== src/Cleanup/Tests.antt =====
-- Examples for `post_apply_cleanup` of common/src/board_state.rs.
use free_talk.Shared.{
  ℕ, ◌+◌, ◌≡◌, ◌≢◌, ◌↔◌, refl, arith, Bool, true, false, List, [], ◌∷◌, Option, none, some, ok, map,
  contains, nat_eq, list_eq,
}
use free_talk.Shared.Order.{Ascending}
use free_talk.Model.{ChatBoardStateV1, member_id}
use free_talk.Examples.{toy, parameters, member, ban, three_members, message, board_with}
use free_talk.Member.Chain.{owner_id, members_by_member_id, verify}
use free_talk.Cleanup.{message_authors, required_ids, post_apply_cleanup}
use free_talk.Cleanup.Required.{Needed}
use free_talk.Cleanup.Keeps.{post_apply_cleanup_iff, post_apply_cleanup-verify}

-- Member 2 wrote a message; member 1, who invited him, did not, nor did member 3.
abbrev spoken : ChatBoardStateV1
spoken = board_with three_members (ban 5 4 3 ∷ []) (message 2 1 ∷ [])

abbrev cleaned : ChatBoardStateV1
cleaned = board_with (member 1 9 ∷ member 2 1 ∷ []) (ban 5 4 3 ∷ []) (message 2 1 ∷ [])

required : required_ids toy spoken parameters ≡ some (1 ∷ 2 ∷ [])
unfolding required_ids owner_id member_id
required = refl

clean_up : post_apply_cleanup toy spoken parameters ≡ some cleaned
unfolding post_apply_cleanup owner_id member_id free_talk.Cleanup.keeps_ban
    free_talk.Shared.Order.sort_by_key
clean_up = refl

valid : verify toy three_members parameters ≡ ok tt
unfolding verify free_talk.Member.Chain.check_member member_id owner_id
    free_talk.Member.Chain.get_invite_chain_with_lookup free_talk.Member.Chain.verify_signature
valid = refl

post_apply_cleanup_iff_example : (contains (map (member_id toy) cleaned.members) 3 ≡ true) ↔ (
    (contains (map (member_id toy) spoken.members) 3 ≡ true)
    × Needed
        (owner_id toy parameters)
        (members_by_member_id toy spoken.members)
        (message_authors spoken)
        3)
post_apply_cleanup_iff_example = post_apply_cleanup_iff toy parameters spoken cleaned 3 clean_up

post_apply_cleanup-verify_example :
    (verify toy cleaned.members parameters ≡ ok tt)
    × Ascending (map (member_id toy) cleaned.members)
unfolding member_id
post_apply_cleanup-verify_example =
    post_apply_cleanup-verify toy parameters spoken cleaned valid
      ((omega arith, (omega arith, tt)), ((omega arith, tt), (tt, tt))) clean_up
