-- ===== src/Admin/Merge.antt =====
-- Replicas that receive administrators in different orders (common/src/board_state/admin.rs).
use free_talk.Shared.{
  ℕ, ◌≡◌, refl, ◌∙◌, arith, false, not, ◌||◌, List, [], Option, none, some, ok, ◌>>◌, reject,
  for_each, length, map, >>=-eq-ok, ltb, contains, nat_eq, subst, retain, contains-retain, ◌&&◌,
  is_empty, is_empty-eq, Bool-cases, inl, inr,
}
use free_talk.Shared.Order.{Ascending-eq, sort_by_key, contains-sort_by_key}
use free_talk.Shared.Dedup.{push_new, contains-push_new, or_insert_all, by_id}
use free_talk.Model.{
  Crypto, AuthorizedAdmin, ChatBoardParametersV1, ChatBoardStateV1, owner_added_as_admin,
  too_many_admins,
}
use free_talk.Admin.{admin_id, max_admins, check_admin, apply_delta, delta, summarize}
use free_talk.Shared.HashSet
use free_talk.Admin.Keeps.{AreAdmins, apply_delta-AreAdmins}

module _ (c : Crypto) (state : ChatBoardStateV1) (p : ChatBoardParametersV1) where
  -- After an accepted delta the administrators are those before and those of the delta.
  pub contains-apply_delta :
      (xs ds r : List AuthorizedAdmin)
      → apply_delta c xs state p (some ds) ≡ ok r
      → (k : ℕ)
      → contains (map admin_id r) k ≡ (contains (map admin_id xs) k || contains (map admin_id ds) k)
  unfolding apply_delta
  contains-apply_delta xs ds r h k =
      let merged = push_new admin_id xs ds in
      let combined = or_insert_all admin_id (by_id admin_id xs) ds in
      let limit =
        >>=-eq-ok
          (reject (ltb (max_admins state) (length combined))
            (too_many_admins (length combined) (max_admins state)))
          (λ _.
            for_each (check_admin c p owner_added_as_admin) ds >> ok (sort_by_key admin_id merged))
          h in
      let checks =
        >>=-eq-ok (for_each (check_admin c p owner_added_as_admin) ds)
          (λ _. ok (sort_by_key admin_id merged)) limit.2 in
      subst
        (λ z.
          contains (map admin_id z) k
          ≡ (contains (map admin_id xs) k || contains (map admin_id ds) k))
        (cc (checks.2))
        (contains-sort_by_key admin_id merged k ∙ contains-push_new admin_id xs ds k)

  -- Two deltas that are accepted in both orders leave the same administrators, in the same order.
  apply_delta_comm :
      (xs ds es a b ab ba : List AuthorizedAdmin)
      → AreAdmins c state p xs
      → apply_delta c xs state p (some ds) ≡ ok a
      → apply_delta c a state p (some es) ≡ ok ab
      → apply_delta c xs state p (some es) ≡ ok b
      → apply_delta c b state p (some ds) ≡ ok ba
      → map admin_id ab ≡ map admin_id ba
  apply_delta_comm xs ds es a b ab ba v ha hab hb hba =
      let va = apply_delta-AreAdmins c state p xs a (some ds) v ha in
      let vb = apply_delta-AreAdmins c state p xs b (some es) v hb in
      Ascending-eq (map admin_id ab) (map admin_id ba)
        (apply_delta-AreAdmins c state p a ab (some es) va hab).sorted
        (apply_delta-AreAdmins c state p b ba (some ds) vb hba).sorted
        (λ k. ground (
          arith,
          contains-apply_delta xs ds a ha k,
          contains-apply_delta a es ab hab k,
          contains-apply_delta xs es b hb k,
          contains-apply_delta b ds ba hba k,
        ))

abbrev added : Option (List AuthorizedAdmin) → List AuthorizedAdmin
added none = []
added (some ds) = ds

-- The administrators that a replica sends are those that the summary does not name.
contains-delta :
    (mine other : List AuthorizedAdmin) (k : ℕ)
    → contains (map admin_id (added (delta mine (summarize other)))) k
      ≡ (contains (map admin_id mine) k && not (contains (map admin_id other) k))
unfolding delta summarize
contains-delta mine other k =
    let new =
      retain (λ m. not (contains (HashSet.collect (map admin_id other)) (admin_id m))) mine in
    let kept =
      contains-retain admin_id (λ j. not (contains (HashSet.collect (map admin_id other)) j)) mine
        k in
    let same = HashSet.contains-collect (map admin_id other) k in
    elim (Bool-cases (is_empty new)) [
      | inl none_new ↦ rw none_new (
          ground (
            arith,
            kept,
            same,
            subst (λ z. contains (map admin_id new) k ≡ contains (map admin_id z) k)
                (is_empty-eq new none_new) refl,
          ))
      | inr some_new ↦ rw some_new (ground (arith, kept, same))
    ]

module _ (c : Crypto) (state : ChatBoardStateV1) (p : ChatBoardParametersV1) where
  contains-receive :
      (xs r : List AuthorizedAdmin) (d : Option (List AuthorizedAdmin))
      → apply_delta c xs state p d ≡ ok r
      → (k : ℕ)
      → contains (map admin_id r) k
        ≡ (contains (map admin_id xs) k || contains (map admin_id (added d)) k)
  unfolding apply_delta
  contains-receive xs r none h k =
      let e : sort_by_key admin_id xs ≡ r = cc in
      subst (λ z. contains (map admin_id z) k ≡ (contains (map admin_id xs) k || false)) e
        (ground (arith, contains-sort_by_key admin_id xs k))
  contains-receive xs r (some ds) h k = contains-apply_delta c state p xs ds r h k

  -- Two valid replicas that send each other what the other's summary lacks, and accept it, hold the
  -- same administrators in the same order.
  pub exchange_agrees :
      (xs ys xs' ys' : List AuthorizedAdmin)
      → AreAdmins c state p xs
      → AreAdmins c state p ys
      → apply_delta c xs state p (delta ys (summarize xs)) ≡ ok xs'
      → apply_delta c ys state p (delta xs (summarize ys)) ≡ ok ys'
      → map admin_id xs' ≡ map admin_id ys'
  exchange_agrees xs ys xs' ys' vx vy hx hy =
      Ascending-eq (map admin_id xs') (map admin_id ys')
        (apply_delta-AreAdmins c state p xs xs' (delta ys (summarize xs)) vx hx).sorted
        (apply_delta-AreAdmins c state p ys ys' (delta xs (summarize ys)) vy hy).sorted
        (λ k. ground (
          arith,
          contains-receive xs xs' (delta ys (summarize xs)) hx k,
          contains-receive ys ys' (delta xs (summarize ys)) hy k,
          contains-delta ys xs k,
          contains-delta xs ys k,
        ))
