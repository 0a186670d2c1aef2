-- ===== src/Shared/Keys.antt =====
-- Lists in which no two elements have the same key, of any type of keys: adding at the end, filtering
-- and sorting keep this.
use free_talk.Shared.Tests.{PartialEq, ◌==◌, Bool-cases, ==_comm}
use free_talk.Shared.Lists.{retain, contains, Distinct, contains-map}
use free_talk.Shared.Order.{insert_by, sort_by, any-insert_by, any-sort_by}
use mathlib.Core.Path.{◌≡◌, refl, sym, ◌∙◌}
use mathlib.Core.Logic.{inl, inr}
use mathlib.Core.Bool.{Bool, false, ◌||◌}
use mathlib.Core.List.{List, [], ◌∷◌, ◌++◌, map}
use native.Mathlib.Omega.{arith}

module _ {A : Type 0} {K : Type 0} ⦃e : PartialEq K⦄ (f : A → K) where
  pub contains-map_snoc :
      (xs : List A) (x : A) (k : K)
      → contains (map f (xs ++ x ∷ [])) k ≡ (contains (map f xs) k || f x == k)
  contains-map_snoc [] x k = ground arith
  contains-map_snoc (y ∷ xs) x k = ground (arith, contains-map_snoc xs x k)

  pub snoc_Distinct :
      (xs : List A) (x : A)
      → Distinct (map f xs)
      → contains (map f xs) (f x) ≡ false
      → Distinct (map f (xs ++ x ∷ []))
  snoc_Distinct [] x d n = (refl, tt)
  snoc_Distinct (y ∷ xs) x d n = (
    ground (arith, contains-map_snoc xs x (f y), d.0, ==_comm (f y) (f x)),
    snoc_Distinct xs x d.1 (ground arith),
  )

  absent_retain :
      (q : A → Bool) (xs : List A) (k : K)
      → contains (map f xs) k ≡ false
      → contains (map f (retain q xs)) k ≡ false
  absent_retain q [] k h = refl
  absent_retain q (x ∷ xs) k h = ground (arith, absent_retain q xs k)

  pub retain-Distinct :
      (q : A → Bool) (xs : List A) → Distinct (map f xs) → Distinct (map f (retain q xs))
  retain-Distinct q [] d = tt
  retain-Distinct q (x ∷ xs) d = elim (Bool-cases (q x)) [
    | inl stays ↦ rw stays ((absent_retain q xs (f x) d.0, retain-Distinct q xs d.1))
    | inr goes ↦ rw goes (retain-Distinct q xs d.1)
  ]

  module _ (le : A → A → Bool) where
    pub contains-sort_by :
        (xs : List A) (k : K) → contains (map f (sort_by le xs)) k ≡ contains (map f xs) k
    contains-sort_by xs k =
        contains-map f (sort_by le xs) k
        ∙ any-sort_by le (λ x. f x == k) xs
        ∙ sym (contains-map f xs k)

    insert_Distinct :
        (x : A) (xs : List A)
        → contains (map f xs) (f x) ≡ false
        → Distinct (map f xs)
        → Distinct (map f (insert_by le x xs))
    insert_Distinct x [] n d = (refl, tt)
    insert_Distinct x (y ∷ ys) n d = elim (Bool-cases (le x y)) [
      | inl first ↦ rw first ((n, d))
      | inr later ↦ rw later (
        ground (
          arith,
          contains-map f (insert_by le x ys) (f y),
          any-insert_by le (λ z. f z == f y) x ys,
          contains-map f ys (f y),
          ==_comm (f y) (f x),
        ),
        insert_Distinct x ys (ground arith) d.1,
      )
    ]

    pub sort_by-Distinct : (xs : List A) → Distinct (map f xs) → Distinct (map f (sort_by le xs))
    unfolding sort_by
    sort_by-Distinct [] d = tt
    sort_by-Distinct (x ∷ xs) d =
        insert_Distinct x (sort_by le xs) (contains-sort_by xs (f x) ∙ d.0)
          (sort_by-Distinct xs d.1)
