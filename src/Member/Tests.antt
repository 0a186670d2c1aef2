-- ===== src/Member/Tests.antt =====
-- Examples for common/src/board_state/member.rs.
use free_talk.Shared.{
  ℕ, ◌+◌, ◌*◌, ◌≤◌, ◌≡◌, ◌≢◌, ◌↔◌, ◌||◌, refl, arith, Bool, true, false, List, [], ◌∷◌, Option,
  none, some, Result, ok, err, map, All, Distinct, contains, nat_eq, list_eq, if◌then◌else◌, ◌==◌,
}
use free_talk.Shared.HashMap.{HashMap}
use free_talk.Shared.HashSet.{HashSet}
use free_talk.Shared.Dedup.{by_id, Keyed, by_id-Keyed}
use free_talk.Shared.Order.{Ascending}
use free_talk.Model.{MemberId, AuthorizedMember, member_id, out_of_fuel}
use free_talk.Examples.{toy, parameters, member, ban, three_members, board}
use free_talk.Member.Chain.{
  owner_id, members_by_member_id, verify_signature, get_invite_chain_with_lookup, check_member,
  verify, verify_member_invite_with_lookup,
}
use free_talk.Member.ChainLaws.{Authentic, get_invite_chain_total, get_invite_chain_iff}
use free_talk.Member.Downstream.{banned_user, get_downstream_members}
use free_talk.Member.DownstreamLaws.{Below, get_downstream_members_iff}
use free_talk.Member.DownstreamEnds.{Acyclic, get_downstream_members_total}
use free_talk.Member.Apply.{settle, apply_delta}
use free_talk.Member.Removal.{Banned}
use free_talk.Member.Verify.{Admitted, verify_iff}
use free_talk.Member.ApplyLaws.{IsValid, apply_delta_iff, apply_delta-IsValid}

abbrev lookup : HashMap MemberId AuthorizedMember
lookup = members_by_member_id toy three_members

keyed : Keyed (member_id toy) lookup
keyed = by_id-Keyed (member_id toy) three_members

get_invite_chain_total_example :
    get_invite_chain_with_lookup toy (member 2 1) parameters lookup ≢ err out_of_fuel
get_invite_chain_total_example = get_invite_chain_total toy parameters lookup (member 2 1) keyed

get_invite_chain_iff_example :
    (get_invite_chain_with_lookup toy (member 2 1) parameters lookup ≡ ok (member 1 9 ∷ [])) ↔ (
      Authentic toy parameters lookup (member 2 1) (member 1 9 ∷ [])
      × Distinct (map (member_id toy) (member 2 1 ∷ member 1 9 ∷ [])))
get_invite_chain_iff_example =
    get_invite_chain_iff toy parameters lookup (member 2 1) (member 1 9 ∷ []) keyed

-- The chain of the member whom another member invited.
chain_of_two :
    get_invite_chain_with_lookup toy (member 2 1) parameters lookup ≡ ok (member 1 9 ∷ [])
unfolding get_invite_chain_with_lookup member_id owner_id verify_signature
chain_of_two = refl

verified : verify toy three_members parameters ≡ ok tt
unfolding verify member_id check_member owner_id get_invite_chain_with_lookup verify_signature
verified = refl

verify_iff_example :
    (verify toy three_members parameters ≡ ok tt)
    ↔ All (Admitted toy parameters lookup) three_members
verify_iff_example = verify_iff toy parameters three_members

below_one : get_downstream_members toy three_members 8 1 ≡ some (2 ∷ [])
unfolding get_downstream_members member_id
below_one = refl

get_downstream_members_iff_example :
    (contains {A = MemberId} (2 ∷ []) 2 ≡ true) ↔ Below toy three_members 1 2
get_downstream_members_iff_example =
    get_downstream_members_iff toy three_members 1 8 (2 ∷ []) 2 below_one

-- The owner is two steps above the members that invite nobody.
abbrev rank : MemberId → ℕ
rank k = if k == 9 then 2 else if k == 1 then 1 else 0

acyclic : Acyclic toy rank three_members
unfolding member_id
acyclic = (omega arith, (omega arith, (omega arith, tt)))

get_downstream_members_total_example :
    (r : HashSet MemberId) × (get_downstream_members toy three_members 4 1 ≡ some r)
get_downstream_members_total_example =
    get_downstream_members_total toy rank three_members 4 1 acyclic (omega arith)

settled : settle toy three_members 8 (board [] (ban 5 1 9 ∷ [])) ≡ ok (member 3 9 ∷ [])
unfolding settle member_id free_talk.Member.Downstream.remove_banned_members
    free_talk.Member.Downstream.banned_ids get_downstream_members free_talk.Shared.Order.sort_by_key
settled = refl

-- Member 1 is there; members 2 and 4, whom he invited, and 3 arrive, and 4 is banned.
applied :
    apply_delta toy
      (member 1 9 ∷ [])
      8
      (board [] (ban 5 4 1 ∷ []))
      parameters
      (some (member 2 1 ∷ member 4 1 ∷ member 3 9 ∷ []))
    ≡ ok three_members
unfolding apply_delta member_id verify_member_invite_with_lookup owner_id
    get_invite_chain_with_lookup verify_signature settle
    free_talk.Member.Downstream.remove_banned_members free_talk.Member.Downstream.banned_ids
    get_downstream_members free_talk.Shared.Dedup.push_new free_talk.Shared.Order.sort_by_key
applied = refl

apply_delta_iff_example : (contains (map (member_id toy) three_members) 4 ≡ true) ↔ (
    ((contains (map (member_id toy) (member 1 9 ∷ [])) 4
        || contains (map (member_id toy) (member 2 1 ∷ member 4 1 ∷ member 3 9 ∷ [])) 4)
      ≡ true)
    × ¬ Banned toy (member 1 9 ∷ member 2 1 ∷ member 4 1 ∷ member 3 9 ∷ []) (ban 5 4 1 ∷ []) 4)
unfolding member_id free_talk.Shared.Dedup.push_new
apply_delta_iff_example =
    apply_delta_iff toy (board [] (ban 5 4 1 ∷ [])) parameters 8 (member 1 9 ∷ []) three_members
      (some (member 2 1 ∷ member 4 1 ∷ member 3 9 ∷ [])) 4 applied

first-IsValid : IsValid toy (board [] (ban 5 4 1 ∷ [])) parameters 8 (member 1 9 ∷ [])
unfolding verify member_id check_member owner_id get_invite_chain_with_lookup verify_signature
first-IsValid = record { verified = refl; sorted = (tt, tt) }

apply_delta-IsValid_example : IsValid toy (board [] (ban 5 4 1 ∷ [])) parameters 8 three_members
unfolding member_id owner_id
apply_delta-IsValid_example =
    apply_delta-IsValid toy (board [] (ban 5 4 1 ∷ [])) parameters 8 (member 1 9 ∷ []) three_members
      (some (member 2 1 ∷ member 4 1 ∷ member 3 9 ∷ [])) first-IsValid
      ((λ h. omega (arith, h)), ((λ h. omega (arith, h)), ((λ h. omega (arith, h)), tt))) applied
