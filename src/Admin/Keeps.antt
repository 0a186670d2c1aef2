-- ===== src/Admin/Keeps.antt =====
-- The invariant of the administrators (common/src/board_state/admin.rs).
use free_talk.Shared.{
  ◌≤◌, ◌≡◌, refl, subst, arith, true, List, [], ◌∷◌, Option, none, some, ok, ◌>>◌, reject, for_each,
  for_each-All, All-for_each, All, All-mono, length, map, Distinct, >>=-eq-ok, ltb, ◌≢◌, nat_eq,
}
use free_talk.Shared.Order.{
  Ascending, Distinct-of_Ascending, sort_by_key, sort_by_key-Ascending, length-sort_by_key,
  All-sort_by_key,
}
use free_talk.Shared.Dedup.{
  push_new, push_new-Distinct, push_new-All, length-combined, by_id, or_insert_all,
}
use free_talk.Model.{
  Crypto, AuthorizedAdmin, ChatBoardParametersV1, ChatBoardStateV1, Error, owner_in_admins,
  owner_added_as_admin, too_many_admins, member_id_from,
}
use free_talk.Admin.{admin_id, max_admins, check_admin, verify, apply_delta, verify_signature}

module _ (c : Crypto) (state : ChatBoardStateV1) (p : ChatBoardParametersV1) where
  -- No administrator is the owner, and the owner signed each of them; they are no more than the
  -- configuration allows, and their identifiers ascend.
  abbrev pub IsAdmin : AuthorizedAdmin → Type 0
  IsAdmin a = (admin_id a ≢ member_id_from c p.owner) × (verify_signature c a p.owner ≡ true)

  pub record AreAdmins (xs : List AuthorizedAdmin) : Type 0 where
    pub admins : All IsAdmin xs
    pub few : length xs ≤ max_admins state
    pub sorted : Ascending (map admin_id xs)

  sorted_IsValid :
      (xs : List AuthorizedAdmin)
      → All IsAdmin xs
      → length xs ≤ max_admins state
      → Distinct (map admin_id xs)
      → AreAdmins (sort_by_key admin_id xs)
  sorted_IsValid xs a f d = record {
    admins = All-sort_by_key admin_id IsAdmin xs a;
    few = omega (arith, length-sort_by_key admin_id xs);
    sorted = sort_by_key-Ascending admin_id xs d;
  }

  check_admin-IsAdmin : (e : Error) (a : AuthorizedAdmin) → check_admin c p e a ≡ ok tt → IsAdmin a
  unfolding check_admin
  check_admin-IsAdmin e a h = ground arith

  IsAdmin-check_admin : (e : Error) (a : AuthorizedAdmin) → IsAdmin a → check_admin c p e a ≡ ok tt
  unfolding check_admin
  IsAdmin-check_admin e a h = ground arith

  -- What the invariant says of the elements makes the verification accept.
  pub AreAdmins-verify : (xs : List AuthorizedAdmin) → AreAdmins xs → verify c xs state p ≡ ok tt
  unfolding verify
  AreAdmins-verify [] v = refl
  AreAdmins-verify (x ∷ xs) v = ground (
    arith,
    All-for_each (check_admin c p owner_in_admins) (x ∷ xs) (
        All-mono IsAdmin (λ a. check_admin c p owner_in_admins a ≡ ok tt) (x ∷ xs)
          (IsAdmin-check_admin owner_in_admins) v.admins),
  )

  -- A list that the verification accepts, with ascending identifiers, satisfies the invariant.
  pub verify-AreAdmins :
      (xs : List AuthorizedAdmin)
      → verify c xs state p ≡ ok tt
      → Ascending (map admin_id xs)
      → AreAdmins xs
  unfolding verify
  verify-AreAdmins [] h s = record { admins = tt; few = omega arith; sorted = s }
  verify-AreAdmins (x ∷ xs) h s =
      let q =
        >>=-eq-ok
          (reject (ltb (max_admins state) (length (x ∷ xs)))
            (too_many_admins (length (x ∷ xs)) (max_admins state)))
          (λ _. for_each (check_admin c p owner_in_admins) (x ∷ xs)) h in
      record {
        admins =
            All-mono (λ a. check_admin c p owner_in_admins a ≡ ok tt) IsAdmin (x ∷ xs)
              (check_admin-IsAdmin owner_in_admins)
              (for_each-All (check_admin c p owner_in_admins) (x ∷ xs) q.2);
        few = ground (arith, q.1);
        sorted = s;
      }

  -- A delta that is accepted keeps the invariant: whoever is added is not the owner and is signed
  -- by the owner, and the limit still holds.
  pub apply_delta-AreAdmins :
      (xs r : List AuthorizedAdmin) (d : Option (List AuthorizedAdmin))
      → AreAdmins xs
      → apply_delta c xs state p d ≡ ok r
      → AreAdmins r
  unfolding apply_delta
  apply_delta-AreAdmins xs r none v h =
      subst AreAdmins (cc h)
        (sorted_IsValid xs v.admins v.few (Distinct-of_Ascending (map admin_id xs) v.sorted))
  apply_delta-AreAdmins xs r (some ds) v h =
      let distinct = Distinct-of_Ascending (map admin_id xs) v.sorted in
      let combined = or_insert_all admin_id (by_id admin_id xs) ds in
      let limit =
        >>=-eq-ok
          (reject (ltb (max_admins state) (length combined))
            (too_many_admins (length combined) (max_admins state)))
          (λ _.
            for_each (check_admin c p owner_added_as_admin) ds
            >> ok (sort_by_key admin_id (push_new admin_id xs ds)))
          h in
      let checks =
        >>=-eq-ok (for_each (check_admin c p owner_added_as_admin) ds)
          (λ _. ok (sort_by_key admin_id (push_new admin_id xs ds))) limit.2 in
      let new =
        All-mono (λ a. check_admin c p owner_added_as_admin a ≡ ok tt) IsAdmin ds
          (check_admin-IsAdmin owner_added_as_admin)
          (for_each-All (check_admin c p owner_added_as_admin) ds checks.1) in
      let few : length combined ≤ max_admins state = ground (arith, limit.1) in
      subst AreAdmins (cc (checks.2)) (
        sorted_IsValid (push_new admin_id xs ds) (push_new-All admin_id IsAdmin xs ds v.admins new)
          (omega (arith, few, length-combined admin_id xs ds distinct))
          (push_new-Distinct admin_id xs ds distinct))
