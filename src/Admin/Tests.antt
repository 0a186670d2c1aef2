-- ===== src/Admin/Tests.antt =====
-- Examples for common/src/board_state/admin.rs.
use free_talk.Shared.{◌≡◌, ◌≢◌, refl, arith, [], ◌∷◌, some, ok, map, nat_eq, list_eq}
use free_talk.Model.{member_id_from, ChatBoardStateV1}
use free_talk.Examples.{toy, parameters, admin, board}
use free_talk.Admin.{admin_id, verify_signature, summarize, delta, apply_delta}
use free_talk.Admin.Keeps.{AreAdmins, apply_delta-AreAdmins}
use free_talk.Admin.Merge.{exchange_agrees}

abbrev empty : ChatBoardStateV1
empty = board [] []

added_first : apply_delta toy [] empty parameters (some (admin 5 ∷ [])) ≡ ok (admin 5 ∷ [])
unfolding apply_delta
added_first = refl

added_second :
    apply_delta toy (admin 5 ∷ []) empty parameters (some (admin 4 ∷ []))
    ≡ ok (admin 4 ∷ admin 5 ∷ [])
unfolding apply_delta
added_second = refl

added_other : apply_delta toy [] empty parameters (some (admin 4 ∷ [])) ≡ ok (admin 4 ∷ [])
unfolding apply_delta
added_other = refl

added_last :
    apply_delta toy (admin 4 ∷ []) empty parameters (some (admin 5 ∷ []))
    ≡ ok (admin 4 ∷ admin 5 ∷ [])
unfolding apply_delta
added_last = refl

-- The third administrator is refused where the limit is two.
over_limit :
    apply_delta toy (admin 4 ∷ admin 5 ∷ []) empty parameters (some (admin 6 ∷ []))
    ≢ ok (admin 4 ∷ admin 5 ∷ admin 6 ∷ [])
unfolding apply_delta
over_limit h = cc

nobody : AreAdmins toy empty parameters []
nobody = record { admins = tt; few = omega arith; sorted = tt }

only_4 : AreAdmins toy empty parameters (admin 4 ∷ [])
unfolding verify_signature member_id_from
only_4 = record {
  admins = (((λ h. omega (arith, h)), refl), tt);
  few = omega arith;
  sorted = (tt, tt);
}

only_5 : AreAdmins toy empty parameters (admin 5 ∷ [])
unfolding verify_signature member_id_from
only_5 = record {
  admins = (((λ h. omega (arith, h)), refl), tt);
  few = omega arith;
  sorted = (tt, tt);
}

apply_delta-AreAdmins_example : AreAdmins toy empty parameters (admin 4 ∷ admin 5 ∷ [])
apply_delta-AreAdmins_example =
    apply_delta-AreAdmins toy empty parameters (admin 5 ∷ []) (admin 4 ∷ admin 5 ∷ [])
      (some (admin 4 ∷ [])) only_5 added_second

sent :
    apply_delta toy
      (admin 5 ∷ [])
      empty
      parameters
      (delta (admin 4 ∷ []) (summarize (admin 5 ∷ [])))
    ≡ ok (admin 4 ∷ admin 5 ∷ [])
unfolding apply_delta delta summarize
sent = refl

sent_back :
    apply_delta toy
      (admin 4 ∷ [])
      empty
      parameters
      (delta (admin 5 ∷ []) (summarize (admin 4 ∷ [])))
    ≡ ok (admin 4 ∷ admin 5 ∷ [])
unfolding apply_delta delta summarize
sent_back = refl

exchange_agrees_example :
    map admin_id (admin 4 ∷ admin 5 ∷ []) ≡ map admin_id (admin 4 ∷ admin 5 ∷ [])
exchange_agrees_example =
    exchange_agrees toy empty parameters (admin 5 ∷ []) (admin 4 ∷ []) (admin 4 ∷ admin 5 ∷ [])
      (admin 4 ∷ admin 5 ∷ []) only_5 only_4 sent sent_back
