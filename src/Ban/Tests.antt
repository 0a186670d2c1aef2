-- ===== src/Ban/Tests.antt =====
-- Examples for common/src/board_state/ban.rs.
use free_talk.Shared.{
  ℕ, ◌+◌, ◌-◌, ◌^◌, ◌≤◌, ◌<◌, ◌≡◌, ◌≢◌, ◌↔◌, refl, arith, Bool, true, false, List, [], ◌∷◌, ◌++◌,
  Option, none, some, Result, ok, err, map, All, length, is_empty, contains, nat_eq, list_eq,
}
use free_talk.Shared.HashMap.{HashMap}
use free_talk.Shared.Order.{SortedBy, Ascending}
use free_talk.Model.{
  MemberId, AuthorizedMember, AuthorizedUserBan, ChatBoardStateV1, member_id, ban_id,
}
use free_talk.Examples.{toy, parameters, member, ban, three_members, board, signed_settings}
use free_talk.Member.Chain.{owner_id, members_by_member_id, verify as verify_members}
use free_talk.Member.Apply.{settle}
use free_talk.Member.Downstream.{banned_user}
use free_talk.Ban.Validate.{
  max_user_bans, ban_le, verify_signature, validate_invite_chain, ban_error, check_ban_signature,
  get_invalid_bans, verify,
}
use free_talk.Ban.Apply.{apply_delta}
use free_talk.Ban.ChainLaws.{Above, validate_invite_chain_iff}
use free_talk.Ban.VerifyLaws.{IsGood, bans_verify_iff, verify_huge_limit}
use free_talk.Ban.ApplyLaws.{newest, apply_delta-newest}

abbrev lookup : HashMap MemberId AuthorizedMember
lookup = members_by_member_id toy three_members

abbrev here : ChatBoardStateV1
here = board three_members []

validate_invite_chain_iff_example :
    (validate_invite_chain toy (member 2 1) (member 1 9) lookup 9 ≡ ok tt)
    ↔ Above toy (member 2 1) (member 1 9) lookup 9 (member 2 1)
validate_invite_chain_iff_example = validate_invite_chain_iff toy (member 2 1) (member 1 9) lookup 9

bans_verify_iff_example :
    (verify toy 64 (ban 5 2 1 ∷ []) here parameters ≡ ok tt)
    ↔ ((1 ≤ 2) × All (IsGood toy 64 (ban 5 2 1 ∷ []) here parameters) (ban 5 2 1 ∷ []))
bans_verify_iff_example =
    bans_verify_iff toy 64 (ban 5 2 1 ∷ []) here parameters (omega arith) (omega arith)

-- Member 3 is not above member 1.
refused_ban : is_empty (get_invalid_bans toy 64 (ban 5 1 3 ∷ []) here parameters) ≡ false
unfolding get_invalid_bans free_talk.Ban.Validate.identify_excess_bans
    free_talk.Ban.Validate.extra_bans free_talk.Ban.Validate.validate_single_ban ban_error member_id
    owner_id validate_invite_chain free_talk.Ban.Validate.invite_chain_loop
refused_ban = refl

abbrev huge : ChatBoardStateV1
huge = record {
  configuration = signed_settings 1 150 2;
  admin = here.admin;
  bans = here.bans;
  members = here.members;
  member_info = here.member_info;
  secrets = here.secrets;
  recent_messages = here.recent_messages;
  upgrade = here.upgrade;
  version = here.version;
}

verify_huge_limit_example : verify toy 8 (ban 5 2 1 ∷ []) huge parameters ≢ ok tt
verify_huge_limit_example =
    verify_huge_limit toy 8 (ban 5 2 1 ∷ []) huge parameters (omega arith) (omega arith)
      (omega arith) (omega arith)

evicted :
    apply_delta toy 64 (ban 5 2 1 ∷ ban 6 3 9 ∷ []) here parameters (some (ban 7 1 9 ∷ []))
    ≡ ok (ban 6 3 9 ∷ ban 7 1 9 ∷ [])
unfolding apply_delta ban_id verify free_talk.Ban.Validate.get_invalid_bans
    free_talk.Ban.Validate.identify_excess_bans free_talk.Ban.Validate.extra_bans
    free_talk.Ban.Apply.evict free_talk.Shared.Order.sort_by ban_le
    free_talk.Ban.Validate.validate_single_ban ban_error member_id owner_id check_ban_signature
    verify_signature
evicted = refl

apply_delta-newest_example :
    ((ban 6 3 9 ∷ ban 7 1 9 ∷ []) ≡ newest toy 2 (ban 5 2 1 ∷ ban 6 3 9 ∷ ban 7 1 9 ∷ []))
    × (2 ≤ 2)
    × SortedBy (ban_le toy) (ban 6 3 9 ∷ ban 7 1 9 ∷ [])
    × All
        (λ b. contains (map (ban_id toy) (ban 5 2 1 ∷ ban 6 3 9 ∷ [])) (ban_id toy b) ≡ false)
        (ban 7 1 9 ∷ [])
apply_delta-newest_example =
    apply_delta-newest toy 64 here parameters (ban 5 2 1 ∷ ban 6 3 9 ∷ []) (ban 7 1 9 ∷ [])
      (ban 6 3 9 ∷ ban 7 1 9 ∷ []) evicted

-- Signed by nobody, for an issuer who is not a member.
abbrev forged : AuthorizedUserBan
forged = record {
  ban = record { owner_member_id = 9; banned_at = 5; banned_user = 1 };
  banned_by = 77;
  signature = [];
}

verified : verify_members toy three_members parameters ≡ ok tt
unfolding verify_members free_talk.Member.Chain.check_member member_id owner_id
    free_talk.Member.Chain.get_invite_chain_with_lookup free_talk.Member.Chain.verify_signature
verified = refl

everybody : settle toy three_members 20 (board three_members (ban 5 9 3 ∷ [])) ≡ ok []
unfolding settle free_talk.Member.Downstream.remove_banned_members
    free_talk.Member.Downstream.banned_ids free_talk.Member.Downstream.get_downstream_members
    member_id free_talk.Shared.Order.sort_by_key
everybody = refl

abbrev nobody : List AuthorizedMember
nobody = []
