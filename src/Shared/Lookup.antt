-- ===== src/Shared/Lookup.antt =====
-- Looking an element up by its identifier, in a vector and in the map that is made of it, through
-- the steps of `apply_delta`: the elements of a delta, `retain` and `sort_by_key`.
use mathlib.Core.Path.{◌≡◌, refl, ◌∙◌, subst}
use mathlib.Core.Logic.{inl, inr}
use mathlib.Core.Bool.{Bool, true, false}
use mathlib.Core.List.{List, [], ◌∷◌, ◌++◌, map}
use mathlib.Core.Option.{Option, none, some}
use native.Mathlib.Omega.{arith}
use Prim.Native.Nat.{ℕ}
use free_talk.Shared.Tests.{if◌then◌else◌, Bool-cases, nat_eq, nat_beq_iff, ==_refl, ◌==◌, leb}
use free_talk.Shared.Lists.{All, contains, any, Distinct, find, retain, contains-map}
use free_talk.Shared.HashMap
use free_talk.Shared.HashMap.{HashMap}
use free_talk.Shared.Dedup.{push_if_new, push_new, by_id, or_insert_all}
use free_talk.Shared.Order.{insert_by, sort_by, sort_by_key, contains-sort_by_key}

abbrev pub or_else {ℓ} : {A : Type ℓ} → Option A → Option A → Option A
or_else (some a) o = some a
or_else none o = o

module _ {A : Type 0} (key : A → ℕ) where
  abbrev pub find_id : ℕ → List A → Option A
  find_id k xs = find (λ x. key x == k) xs

  pub find_id_absent : (k : ℕ) (xs : List A) → contains (map key xs) k ≡ false → find_id k xs ≡ none
  find_id_absent k [] h = refl
  find_id_absent k (x ∷ xs) h = ground (arith, find_id_absent k xs)

  pub contains_of_find_id :
      (k : ℕ) (x : A) (xs : List A) → find_id k xs ≡ some x → contains (map key xs) k ≡ true
  contains_of_find_id k x [] h = cc
  contains_of_find_id k x (y ∷ ys) h = ground (arith, contains_of_find_id k x ys)

  pub find_id_of_contains :
      (k : ℕ) (xs : List A) → contains (map key xs) k ≡ true → (x : A) × (find_id k xs ≡ some x)
  find_id_of_contains k [] h = cc
  find_id_of_contains k (x ∷ xs) h = elim (Bool-cases (key x == k)) [
    | inl e ↦ (x, rw e)
    | inr e ↦ rw e (find_id_of_contains k xs (ground arith))
  ]

  pub All-find_id {κ} :
      (P : A → Type κ) (k : ℕ) (x : A) (xs : List A)
      → All P xs
      → find_id k xs ≡ some x
      → P x × (key x ≡ k)
  All-find_id P k x [] h f = cc
  All-find_id P k x (y ∷ ys) h f = elim (Bool-cases (key y == k)) [
    | inl e ↦
        let same : y ≡ x = ground arith in
        subst (λ z. P z × (key z ≡ k)) same (h.0, (nat_beq_iff (key y) k).0 e)
    | inr e ↦ All-find_id P k x ys h.1 (ground arith)
  ]

  get-extend :
      (k : ℕ) (m : HashMap ℕ A) (xs : List A)
      → Distinct (map key xs)
      → HashMap.get k (HashMap.extend m (map (λ x. (key x, x)) xs))
        ≡ or_else (find_id k xs) (HashMap.get k m)
  get-extend k m [] d = refl
  get-extend k m (x ∷ xs) d = elim (Bool-cases (key x == k)) [
    | inl e ↦
        let absent =
          find_id_absent k xs
            (subst (λ j. contains (map key xs) j ≡ false) ((nat_beq_iff (key x) k).0 e) d.0) in
        ground (
          arith,
          absent,
          get-extend k (HashMap.insert (key x) x m) xs d.1,
          HashMap.get-insert (key x) k x m,
        )
    | inr e ↦
        ground (
          arith,
          get-extend k (HashMap.insert (key x) x m) xs d.1,
          HashMap.get-insert (key x) k x m,
        )
  ]

  -- The map finds what the vector holds.
  pub get-by_id :
      (k : ℕ) (xs : List A) → Distinct (map key xs) → HashMap.get k (by_id key xs) ≡ find_id k xs
  get-by_id k xs d = ground (arith, get-extend k [] xs d)

  get_absent : (k : ℕ) (m : HashMap ℕ A) → HashMap.contains_key k m ≡ false → HashMap.get k m ≡ none
  get_absent k [] h = refl
  get_absent k ((j, v) ∷ m) h = ground (arith, get_absent k m)

  get-or_insert :
      (k : ℕ) (x : A) (m : HashMap ℕ A)
      → HashMap.get k (HashMap.or_insert (key x) x m)
        ≡ or_else (HashMap.get k m) (if key x == k then some x else none)
  get-or_insert k x m = elim (Bool-cases (key x == k)) [
    | inl e ↦ at_key ((nat_beq_iff (key x) k).0 e)
    | inr e ↦ ground (arith, HashMap.get-insert (key x) k x m)
  ]
    where
      at_key :
          key x ≡ k
          → HashMap.get k (HashMap.or_insert (key x) x m)
            ≡ or_else (HashMap.get k m) (if key x == k then some x else none)
      at_key e =
          subst
            (λ j.
              HashMap.get j (HashMap.or_insert (key x) x m)
              ≡ or_else (HashMap.get j m) (if key x == j then some x else none))
            e
            (elim (Bool-cases (HashMap.contains_key (key x) m)) [
              | inl old ↦
                  let (v, got) = HashMap.get-ne-none_of_contains_key (key x) m old in ground arith
              | inr new ↦ ground (
                arith,
                HashMap.get-insert (key x) (key x) x m,
                get_absent (key x) m new,
                ==_refl (key x),
              )
            ])

  pub get-or_insert_all :
      (k : ℕ) (m : HashMap ℕ A) (ds : List A)
      → HashMap.get k (or_insert_all key m ds) ≡ or_else (HashMap.get k m) (find_id k ds)
  get-or_insert_all k m [] = ground arith
  get-or_insert_all k m (x ∷ ds) =
      ground (arith, get-or_insert_all k (HashMap.or_insert (key x) x m) ds, get-or_insert k x m)

  find_id-append :
      (k : ℕ) (xs ys : List A) → find_id k (xs ++ ys) ≡ or_else (find_id k xs) (find_id k ys)
  find_id-append k [] ys = refl
  find_id-append k (x ∷ xs) ys = ground (arith, find_id-append k xs ys)

  find_id-push_if_new :
      (k : ℕ) (xs : List A) (x : A)
      → find_id k (push_if_new key xs x)
        ≡ or_else (find_id k xs) (if key x == k then some x else none)
  unfolding push_if_new
  find_id-push_if_new k xs x = elim (Bool-cases (any (λ y. key y == key x) xs)) [
    | inr new ↦ rw new (ground (arith, find_id-append k xs (x ∷ [])))
    | inl old ↦ rw old (elim (Bool-cases (key x == k)) [
      | inr e ↦ ground arith
      | inl e ↦
          let (v, got) = find_id_of_contains k xs (
            subst (λ j. contains (map key xs) j ≡ true) ((nat_beq_iff (key x) k).0 e)
              (contains-map key xs (key x) ∙ old)) in
          ground arith
    ])
  ]

  -- An element of the delta is found where there was none before.
  pub find_id-push_new :
      (k : ℕ) (xs ds : List A)
      → find_id k (push_new key xs ds) ≡ or_else (find_id k xs) (find_id k ds)
  unfolding push_new
  find_id-push_new k xs [] = ground arith
  find_id-push_new k xs (x ∷ ds) =
      ground (arith, find_id-push_new k (push_if_new key xs x) ds, find_id-push_if_new k xs x)

  pub find_id-retain :
      (k : ℕ) (q : ℕ → Bool) (xs : List A)
      → find_id k (retain (λ x. q (key x)) xs) ≡ (if q k then find_id k xs else none)
  find_id-retain k q [] = ground arith
  find_id-retain k q (x ∷ xs) = elim (Bool-cases (key x == k)) [
    | inl e ↦
        let same = (nat_beq_iff (key x) k).0 e in
        ground (arith, find_id-retain k q xs, subst (λ j. q (key x) ≡ q j) same refl)
    | inr e ↦ ground (arith, find_id-retain k q xs)
  ]

  find_id-insert_by :
      (le : A → A → Bool) (k : ℕ) (x : A) (xs : List A)
      → contains (map key xs) (key x) ≡ false
      → find_id k (insert_by le x xs) ≡ (if key x == k then some x else find_id k xs)
  find_id-insert_by le k x [] n = refl
  find_id-insert_by le k x (y ∷ ys) n = ground (
    arith,
    find_id-insert_by le k x ys,
    nat_beq_iff (key x) k,
    nat_beq_iff (key y) k,
    nat_beq_iff (key y) (key x),
  )

  -- Sorting elements without repetition changes no look-up.
  pub find_id-sort_by_key :
      (k : ℕ) (xs : List A) → Distinct (map key xs) → find_id k (sort_by_key key xs) ≡ find_id k xs
  unfolding sort_by_key sort_by
  find_id-sort_by_key k [] d = refl
  find_id-sort_by_key k (x ∷ xs) d = ground (
    arith,
    find_id-insert_by (λ a b. leb (key a) (key b)) k x (sort_by_key key xs)
        (contains-sort_by_key key xs (key x) ∙ d.0),
    find_id-sort_by_key k xs d.1,
  )

  pub absent-retain :
      (q : A → Bool) (xs : List A) (k : ℕ)
      → contains (map key xs) k ≡ false
      → contains (map key (retain q xs)) k ≡ false
  absent-retain q [] k h = refl
  absent-retain q (x ∷ xs) k h = ground (arith, absent-retain q xs k)

  pub retain-Distinct :
      (q : A → Bool) (xs : List A) → Distinct (map key xs) → Distinct (map key (retain q xs))
  retain-Distinct q [] d = tt
  retain-Distinct q (x ∷ xs) d = elim (Bool-cases (q x)) [
    | inl e ↦ rw e (absent-retain q xs (key x) d.0, retain-Distinct q xs d.1)
    | inr e ↦ rw e (retain-Distinct q xs d.1)
  ]
