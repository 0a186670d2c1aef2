-- ===== src/MemberInfo/Tests.antt =====
-- Examples for common/src/board_state/member_info.rs.
use free_talk.Shared.{
  ℕ, ◌+◌, ◌≤◌, ◌≡◌, ◌≢◌, refl, arith, Bool, true, false, List, [], ◌∷◌, Option, none, some, Result,
  ok, err, map, All, Distinct, contains, nat_eq, list_eq,
}
use free_talk.Shared.Lookup.{find_id}
use free_talk.Shared.Order.{Ascending}
use free_talk.Model.{MemberId, AuthorizedMemberInfo, SealedBytes, ChatBoardStateV1, member_id}
use free_talk.Member.Chain.{owner_id}
use free_talk.Examples.{toy, parameters, three_members, board}
use free_talk.MemberInfo.{info_id, verify, verify_signature_with_key, apply_delta}
use free_talk.MemberInfo.Newest.{apply_delta-latest}
use free_talk.MemberInfo.Keeps.{IsSigned, apply_delta-verify}

abbrev info : (id version : ℕ) → AuthorizedMemberInfo
info id version = record {
  member_info = record {
    member_id = id;
    version = version;
    preferred_nickname = SealedBytes.public [];
  };
  signature = id ∷ 4 ∷ id ∷ version ∷ [];
}

abbrev here : ChatBoardStateV1
here = board three_members []

-- The older entry of 2 goes, the older one of 1 is ignored, and nobody is called 7.
applied :
    apply_delta toy
      (info 2 1 ∷ info 1 4 ∷ [])
      here
      parameters
      (some (info 2 3 ∷ info 7 1 ∷ info 1 2 ∷ info 9 1 ∷ []))
    ≡ (info 1 4 ∷ info 2 3 ∷ info 9 1 ∷ [], ok tt)
unfolding apply_delta free_talk.Model.declared_len owner_id member_id verify_signature_with_key
    free_talk.Shared.Order.sort_by_key
applied = refl

apply_delta-latest_example :
    find_id info_id 2 (info 1 4 ∷ info 2 3 ∷ info 9 1 ∷ []) ≡ some (info 2 3)
unfolding member_id owner_id
apply_delta-latest_example =
    apply_delta-latest toy here parameters (info 2 1 ∷ info 1 4 ∷ [])
      (info 1 4 ∷ info 2 3 ∷ info 9 1 ∷ []) (some (info 2 3 ∷ info 7 1 ∷ info 1 2 ∷ info 9 1 ∷ []))
      2 (refl, (refl, tt)) applied

none-IsSigned : All (IsSigned toy here parameters) []
none-IsSigned = tt

added :
    apply_delta toy [] here parameters (some (info 2 3 ∷ info 9 1 ∷ []))
    ≡ (info 2 3 ∷ info 9 1 ∷ [], ok tt)
unfolding apply_delta free_talk.Model.declared_len owner_id member_id verify_signature_with_key
    free_talk.Shared.Order.sort_by_key
added = refl

apply_delta-verify_example :
    (verify toy (info 2 3 ∷ info 9 1 ∷ []) here parameters ≡ ok tt)
    × Ascending (map info_id (info 2 3 ∷ info 9 1 ∷ []))
apply_delta-verify_example =
    apply_delta-verify toy here parameters [] (info 2 3 ∷ info 9 1 ∷ [])
      (some (info 2 3 ∷ info 9 1 ∷ [])) none-IsSigned tt added
