-- ===== src/Shared/Order.antt =====
-- `sort_by` and `sort_by_key`, which are stable, and the canonical form that they give to the
-- lists of the board's state: two lists without repetition, sorted by their keys, that hold the
-- same keys are equal.
use mathlib.Core.Path.{◌≡◌, refl, ap, ap₂, sym, subst, ◌∙◌}
use mathlib.Core.Logic.{inl, inr}
use Prim.Native.Nat.{ℕ, suc, ◌≤◌, ◌<◌}
use mathlib.Core.Bool.{Bool, true, false, ◌||◌}
use mathlib.Core.List.{List, [], ◌∷◌, map}
use native.Mathlib.Omega.{arith}
use free_talk.Shared.Tests.{if◌then◌else◌, Bool-cases, nat_eq, leb, ==_refl, nat_beq_iff, leb-total}
use free_talk.Shared.Lists.{
  All, contains, length, any, Distinct, All-mono, contains-map, All_contains,
}

module _ {ℓ} {A : Type ℓ} (le : A → A → Bool) where
  -- `x` goes before the first element that it does not exceed.
  abbrev pub insert_by : A → List A → List A
  insert_by x [] = x ∷ []
  insert_by x (y ∷ ys) = if le x y then x ∷ y ∷ ys else y ∷ insert_by x ys

  -- `sort_by`, by the test that the comparison is not `Greater`
  unfoldable pub sort_by : List A → List A
  sort_by [] = []
  sort_by (x ∷ xs) = insert_by x (sort_by xs)

  pub any-insert_by :
      (p : A → Bool) (x : A) (xs : List A) → any p (insert_by x xs) ≡ (p x || any p xs)
  any-insert_by p x [] = refl
  any-insert_by p x (y ∷ ys) = ground (arith, any-insert_by p x ys)

  -- Sorting keeps the elements.
  pub any-sort_by : (p : A → Bool) (xs : List A) → any p (sort_by xs) ≡ any p xs
  unfolding sort_by
  any-sort_by p [] = refl
  any-sort_by p (x ∷ xs) = ground (arith, any-sort_by p xs, any-insert_by p x (sort_by xs))

  length-insert_by : (x : A) (xs : List A) → length (insert_by x xs) ≡ suc (length xs)
  length-insert_by x [] = refl
  length-insert_by x (y ∷ ys) = ground (arith, length-insert_by x ys)

  pub length-sort_by : (xs : List A) → length (sort_by xs) ≡ length xs
  unfolding sort_by
  length-sort_by [] = refl
  length-sort_by (x ∷ xs) = omega (arith, length-insert_by x (sort_by xs), length-sort_by xs)

  All-insert_by {κ} :
      (P : A → Type κ) (x : A) (xs : List A) → P x → All P xs → All P (insert_by x xs)
  All-insert_by P x [] p h = (p, tt)
  All-insert_by P x (y ∷ ys) p h = elim (Bool-cases (le x y)) [
    | inl e ↦ rw e (p, h)
    | inr e ↦ rw e (h.0, All-insert_by P x ys p h.1)
  ]

  pub All-sort_by {κ} : (P : A → Type κ) (xs : List A) → All P xs → All P (sort_by xs)
  unfolding sort_by
  All-sort_by P [] h = tt
  All-sort_by P (x ∷ xs) h = All-insert_by P x (sort_by xs) h.0 (All-sort_by P xs h.1)

  -- Each element stands before all that it does not exceed.
  abbrev pub SortedBy : List A → Type 0
  SortedBy [] = Unit
  SortedBy (x ∷ xs) = All (λ y. le x y ≡ true) xs × SortedBy xs

  module _ (total : (a b : A) → le a b ≡ false → le b a ≡ true)
      (trans : (a b c : A) → le a b ≡ true → le b c ≡ true → le a c ≡ true) where
    insert_by-SortedBy : (x : A) (xs : List A) → SortedBy xs → SortedBy (insert_by x xs)
    insert_by-SortedBy x [] s = (tt, tt)
    insert_by-SortedBy x (y ∷ ys) s = elim (Bool-cases (le x y)) [
      | inl e ↦ rw e (
        (e, All-mono (λ z. le y z ≡ true) (λ z. le x z ≡ true) ys (λ z h. trans x y z e h) s.0),
        s,
      )
      | inr e ↦
          rw e
            (All-insert_by (λ z. le y z ≡ true) x ys (total x y e) s.0, insert_by-SortedBy x ys s.1)
    ]

    pub sort_by-SortedBy : (xs : List A) → SortedBy (sort_by xs)
    unfolding sort_by
    sort_by-SortedBy [] = tt
    sort_by-SortedBy (x ∷ xs) = insert_by-SortedBy x (sort_by xs) (sort_by-SortedBy xs)

  sort_by-sorted_step :
      (x : A) (xs : List A) → All (λ y. le x y ≡ true) xs → insert_by x xs ≡ x ∷ xs
  sort_by-sorted_step x [] h = refl
  sort_by-sorted_step x (y ∷ ys) h = rw h.0

  -- Sorting a sorted list changes nothing.
  pub sort_by_of_SortedBy : (xs : List A) → SortedBy xs → sort_by xs ≡ xs
  unfolding sort_by
  sort_by_of_SortedBy [] s = refl
  sort_by_of_SortedBy (x ∷ xs) s =
      ap (insert_by x) (sort_by_of_SortedBy xs s.1) ∙ sort_by-sorted_step x xs s.0

-- Strictly ascending numbers: the order of a set of identifiers.
abbrev pub Ascending : List ℕ → Type 0
Ascending [] = Unit
Ascending (x ∷ xs) = All (λ y. x < y) xs × Ascending xs

not-contains_below : (a : ℕ) (xs : List ℕ) → All (λ y. a < y) xs → contains xs a ≡ false
not-contains_below a [] h = refl
not-contains_below a (x ∷ xs) h = ground (arith, not-contains_below a xs h.1)

SameElements-tail :
    (x : ℕ) (xs ys : List ℕ)
    → All (λ y. x < y) xs
    → All (λ y. x < y) ys
    → ((a : ℕ) → contains (x ∷ xs) a ≡ contains (x ∷ ys) a)
    → (a : ℕ) → contains xs a ≡ contains ys a
SameElements-tail x xs ys hx hy same a = elim (Bool-cases (nat_eq.is_eq x a)) [
  | inl e ↦
      let p = (nat_beq_iff x a).0 e in
      rw (← p) (not-contains_below x xs hx ∙ sym (not-contains_below x ys hy))
  | inr e ↦ ground (arith, same a)
]

head-le : (y x : ℕ) (ys : List ℕ) → All (λ z. y < z) ys → contains (y ∷ ys) x ≡ true → y ≤ x
head-le y x ys h c = elim (Bool-cases (nat_eq.is_eq y x)) [
  | inl e ↦ ground (arith, (nat_beq_iff y x).0 e)
  | inr e ↦ let later : y < x = All_contains (λ z. y < z) ys x h (rw e at c) in omega arith
]

contains-head : (x : ℕ) (xs : List ℕ) → contains (x ∷ xs) x ≡ true
contains-head x xs = ground (arith, ==_refl x)

-- Two ascending lists with the same elements are equal.
pub Ascending-eq :
    (xs ys : List ℕ)
    → Ascending xs
    → Ascending ys
    → ((a : ℕ) → contains xs a ≡ contains ys a)
    → xs ≡ ys
Ascending-eq [] [] h k same = refl
Ascending-eq [] (y ∷ ys) h k same = ground (arith, same y, ==_refl y)
Ascending-eq (x ∷ xs) [] h k same = ground (arith, same x, ==_refl x)
Ascending-eq (x ∷ xs) (y ∷ ys) h k same =
    let e : x ≡ y = omega (
      arith,
      head-le x y xs h.0 (same y ∙ contains-head y ys),
      head-le y x ys k.0 (sym (same x) ∙ contains-head x xs),
    ) in
    ap₂ ◌∷◌ e (
      Ascending-eq xs ys h.1 k.1 (
        SameElements-tail x xs ys h.0 (rw e k.0)
          (subst (λ z. (a : ℕ) → contains (x ∷ xs) a ≡ contains (z ∷ ys) a) (sym e) same)))

-- A list without repetition, sorted by `≤`, is ascending.
ascending_step :
    (x : ℕ) (xs : List ℕ)
    → All (λ y. leb x y ≡ true) xs
    → contains xs x ≡ false
    → All (λ y. x < y) xs
ascending_step x [] h d = tt
ascending_step x (y ∷ ys) h d = (ground arith, ascending_step x ys h.1 (ground arith))

module _ {ℓ} {A : Type ℓ} (key : A → ℕ) where
  -- `sort_by_key(key)`
  unfoldable pub sort_by_key : List A → List A
  unfolding sort_by
  sort_by_key xs = sort_by (λ a b. leb (key a) (key b)) xs

  -- Sorting keeps the keys.
  pub contains-sort_by_key :
      (xs : List A) (k : ℕ) → contains (map key (sort_by_key xs)) k ≡ contains (map key xs) k
  unfolding sort_by_key
  contains-sort_by_key xs k =
      contains-map key (sort_by (λ a b. leb (key a) (key b)) xs) k
      ∙ any-sort_by (λ a b. leb (key a) (key b)) (λ x. nat_eq.is_eq (key x) k) xs
      ∙ sym (contains-map key xs k)

  Distinct-insert_by :
      (x : A) (xs : List A)
      → contains (map key xs) (key x) ≡ false
      → Distinct (map key xs)
      → Distinct (map key (insert_by (λ a b. leb (key a) (key b)) x xs))
  Distinct-insert_by x [] n d = (refl, tt)
  Distinct-insert_by x (y ∷ ys) n d = elim (Bool-cases (leb (key x) (key y))) [
    | inl e ↦ rw e (n, d)
    | inr e ↦ rw e (
      ground (
        arith,
        contains-map key (insert_by (λ a b. leb (key a) (key b)) x ys) (key y),
        any-insert_by (λ a b. leb (key a) (key b)) (λ z. nat_eq.is_eq (key z) (key y)) x ys,
        contains-map key ys (key y),
      ),
      Distinct-insert_by x ys (ground arith) d.1,
    )
  ]

  pub sort_by_key-Distinct :
      (xs : List A) → Distinct (map key xs) → Distinct (map key (sort_by_key xs))
  unfolding sort_by_key sort_by
  sort_by_key-Distinct [] d = tt
  sort_by_key-Distinct (x ∷ xs) d =
      Distinct-insert_by x (sort_by_key xs) (contains-sort_by_key xs (key x) ∙ d.0)
        (sort_by_key-Distinct xs d.1)

  Ascending_of_SortedBy :
      (xs : List A)
      → SortedBy (λ a b. leb (key a) (key b)) xs
      → Distinct (map key xs)
      → Ascending (map key xs)
  Ascending_of_SortedBy [] s d = tt
  Ascending_of_SortedBy (x ∷ xs) s d = (
    ascending_step (key x) (map key xs) (keys_above xs s.0) d.0,
    Ascending_of_SortedBy xs s.1 d.1,
  )
    where
      keys_above :
          (ys : List A)
          → All (λ y. leb (key x) (key y) ≡ true) ys
          → All (λ k. leb (key x) k ≡ true) (map key ys)
      keys_above [] h = tt
      keys_above (y ∷ ys) h = (h.0, keys_above ys h.1)

  -- Sorted by keys that do not repeat, the keys ascend.
  pub sort_by_key-Ascending :
      (xs : List A) → Distinct (map key xs) → Ascending (map key (sort_by_key xs))
  unfolding sort_by_key
  sort_by_key-Ascending xs d =
      Ascending_of_SortedBy (sort_by_key xs)
        (sort_by-SortedBy (λ a b. leb (key a) (key b)) (λ a b h. leb-total (key a) (key b) h)
          (λ a b c h k. ground arith) xs)
        (sort_by_key-Distinct xs d)

-- Ascending identifiers do not repeat.
pub Distinct-of_Ascending : (xs : List ℕ) → Ascending xs → Distinct xs
Distinct-of_Ascending [] h = tt
Distinct-of_Ascending (x ∷ xs) h = (not-contains_below x xs h.0, Distinct-of_Ascending xs h.1)

module _ {ℓ} {A : Type ℓ} (key : A → ℕ) where
  pub length-sort_by_key : (xs : List A) → length (sort_by_key key xs) ≡ length xs
  unfolding sort_by_key
  length-sort_by_key xs = length-sort_by (λ a b. leb (key a) (key b)) xs

  pub All-sort_by_key {κ} : (P : A → Type κ) (xs : List A) → All P xs → All P (sort_by_key key xs)
  unfolding sort_by_key
  All-sort_by_key P xs h = All-sort_by (λ a b. leb (key a) (key b)) P xs h
