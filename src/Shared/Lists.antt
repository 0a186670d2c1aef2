-- ===== src/Shared/Lists.antt =====
-- Vectors and their iterators: length, `iter().any`, `contains`, `filter` and `retain`.
use Prim.Native.Nat.{ℕ, zero, suc, ◌+◌, ◌-◌, ◌≤◌}
use mathlib.Core.Path.{◌≡◌, refl, ap}
use mathlib.Core.Logic.{inl, inr}
use mathlib.Core.Bool.{Bool, true, false, ◌&&◌, ◌||◌}
use mathlib.Core.List.{List, [], ◌∷◌, ◌++◌, map}
use mathlib.Core.Option.{Option, none, some}
use native.Mathlib.Omega.{arith}
use free_talk.Shared.Tests.{if◌then◌else◌, PartialEq, ◌==◌, Bool-cases, ==_comm, ==_refl}

module _ {ℓ} {A : Type ℓ} where
  abbrev pub length : List A → ℕ
  length [] = 0
  length (x ∷ xs) = suc (length xs)

  abbrev pub is_empty : List A → Bool
  is_empty [] = true
  is_empty (x ∷ xs) = false

  abbrev pub drop : ℕ → List A → List A
  drop zero xs = xs
  drop (suc n) [] = []
  drop (suc n) (x ∷ xs) = drop n xs

  abbrev pub take : ℕ → List A → List A
  take zero xs = []
  take (suc n) [] = []
  take (suc n) (x ∷ xs) = x ∷ take n xs

  -- `iter().any(p)`
  abbrev pub any : (A → Bool) → List A → Bool
  any p [] = false
  any p (x ∷ xs) = p x || any p xs

  -- `iter().all(p)`
  abbrev pub all : (A → Bool) → List A → Bool
  all p [] = true
  all p (x ∷ xs) = p x && all p xs

  -- `iter().find(p)`
  abbrev pub find : (A → Bool) → List A → Option A
  find p [] = none
  find p (x ∷ xs) = if p x then some x else find p xs

  -- `retain(p)`, and `iter().filter(p).cloned().collect()`
  abbrev pub retain : (A → Bool) → List A → List A
  retain p [] = []
  retain p (x ∷ xs) = if p x then x ∷ retain p xs else retain p xs

  abbrev pub All {κ} : (A → Type κ) → List A → Type κ
  All P [] = Unit
  All P (x ∷ xs) = P x × All P xs

  pub length-append : (xs ys : List A) → length (xs ++ ys) ≡ length xs + length ys
  length-append [] ys = omega arith
  length-append (x ∷ xs) ys = omega (arith, length-append xs ys)

  pub length-retain-le : (p : A → Bool) (xs : List A) → length (retain p xs) ≤ length xs
  length-retain-le p [] = omega arith
  length-retain-le p (x ∷ xs) = ground (arith, length-retain-le p xs)

  pub length-drop : (n : ℕ) (xs : List A) → length (drop n xs) ≡ length xs - n
  length-drop zero xs = omega arith
  length-drop (suc n) [] = omega arith
  length-drop (suc n) (x ∷ xs) = omega (arith, length-drop n xs)

  pub any-append : (p : A → Bool) (xs ys : List A) → any p (xs ++ ys) ≡ (any p xs || any p ys)
  any-append p [] ys = refl
  any-append p (x ∷ xs) ys = ground (arith, any-append p xs ys)

  pub any-retain : (p q : A → Bool) (xs : List A) → any p (retain q xs) ≡ any (λ x. p x && q x) xs
  any-retain p q [] = refl
  any-retain p q (x ∷ xs) = ground (arith, any-retain p q xs)

  pub any-retain-true :
      (p q : A → Bool) (xs : List A) → any p (retain q xs) ≡ true → any p xs ≡ true
  any-retain-true p q [] h = h
  any-retain-true p q (x ∷ xs) h = ground (arith, any-retain-true p q xs)

  pub All-append {κ} : (P : A → Type κ) (xs ys : List A) → All P xs → All P ys → All P (xs ++ ys)
  All-append P [] ys h k = k
  All-append P (x ∷ xs) ys h k = (h.0, All-append P xs ys h.1 k)

  -- What holds of every element, and what the test adds, holds of every element kept.
  pub All-retain {κ μ} :
      (P : A → Type κ) (Q : A → Type μ) (q : A → Bool) (xs : List A)
      → ((x : A) → P x → q x ≡ true → Q x)
      → All P xs
      → All Q (retain q xs)
  All-retain P Q q [] keep h = tt
  All-retain P Q q (x ∷ xs) keep h = elim (Bool-cases (q x)) [
    | inl e ↦ rw e (keep x h.0 e, All-retain P Q q xs keep h.1)
    | inr e ↦ rw e (All-retain P Q q xs keep h.1)
  ]

  pub All-mono {κ μ} :
      (P : A → Type κ) (Q : A → Type μ) (xs : List A) → ((x : A) → P x → Q x) → All P xs → All Q xs
  All-mono P Q [] f h = tt
  All-mono P Q (x ∷ xs) f h = (f x h.0, All-mono P Q xs f h.1)

  pub All-zip {κ μ} :
      (P : A → Type κ) (Q : A → Type μ) (xs : List A)
      → All P xs
      → All Q xs
      → All (λ x. P x × Q x) xs
  All-zip P Q [] h k = tt
  All-zip P Q (x ∷ xs) h k = ((h.0, k.0), All-zip P Q xs h.1 k.1)

  pub All-of_All {κ} : (P : A → Type κ) (xs : List A) → ((x : A) → P x) → All P xs
  All-of_All P [] f = tt
  All-of_All P (x ∷ xs) f = (f x, All-of_All P xs f)

  pub retain-All : (q : A → Bool) (xs : List A) → All (λ x. q x ≡ true) xs → retain q xs ≡ xs
  retain-All q [] h = refl
  retain-All q (x ∷ xs) h = rw h.0 (ap (◌∷◌ x) (retain-All q xs h.1))

  pub is_empty-eq : (xs : List A) → is_empty xs ≡ true → xs ≡ []
  is_empty-eq [] h = refl
  is_empty-eq (x ∷ xs) h = cc

module _ {ℓ} {A : Type ℓ} ⦃e : PartialEq A⦄ where
  -- `contains`, of a vector or a set
  abbrev pub contains : List A → A → Bool
  contains xs a = any (λ x. x == a) xs

  -- What holds of every element holds of one that is contained.
  pub All_contains {κ} :
      (P : A → Type κ) (xs : List A) (a : A) → All P xs → contains xs a ≡ true → P a
  All_contains P [] a h k = cc
  All_contains P (x ∷ xs) a h k = elim (Bool-cases (x == a)) [
    | inl same ↦ rw (← (e.is_eq_iff x a).0 same) h.0
    | inr other ↦ All_contains P xs a h.1 (ground arith)
  ]

  pub All-contains_self : (xs : List A) → All (λ a. contains xs a ≡ true) xs
  All-contains_self [] = tt
  All-contains_self (x ∷ xs) = (
    ground (arith, ==_refl x),
    All-mono (λ a. contains xs a ≡ true) (λ a. contains (x ∷ xs) a ≡ true) xs (λ a h. ground arith)
        (All-contains_self xs),
  )

  -- Every element occurs once.
  abbrev pub Distinct : List A → Type 0
  Distinct [] = Unit
  Distinct (x ∷ xs) = (contains xs x ≡ false) × Distinct xs

  -- The elements other than `a`.
  abbrev pub without : A → List A → List A
  without a [] = []
  without a (x ∷ xs) = if x == a then without a xs else x ∷ without a xs

  pub length-without_lt :
      (a : A) (xs : List A) → contains xs a ≡ true → length (without a xs) + 1 ≤ length xs
  length-without_lt a xs h = go xs h
    where
      le : (ys : List A) → length (without a ys) ≤ length ys
      le [] = omega arith
      le (y ∷ ys) = ground (arith, le ys)

      go : (ys : List A) → contains ys a ≡ true → length (without a ys) + 1 ≤ length ys
      go [] k = cc
      go (y ∷ ys) k = ground (arith, le ys, go ys)

  pub contains-without :
      (a b : A) (xs : List A) → (a == b) ≡ false → contains (without a xs) b ≡ contains xs b
  contains-without a b [] h = refl
  contains-without a b (x ∷ xs) h =
      ground (arith, contains-without a b xs, e.is_eq_iff x a, e.is_eq_iff x b, e.is_eq_iff a b)

  -- Distinct values that all stand in a list are no more than the list is long.
  pub pigeonhole :
      (xs ys : List A) → Distinct xs → All (λ a. contains ys a ≡ true) xs → length xs ≤ length ys
  pigeonhole [] ys d h = omega arith
  pigeonhole (x ∷ xs) ys d h =
      omega (arith, length-without_lt x ys h.0, pigeonhole xs (without x ys) d.1 (still xs d.0 h.1))
    where
      still :
          (zs : List A)
          → contains zs x ≡ false
          → All (λ a. contains ys a ≡ true) zs
          → All (λ a. contains (without x ys) a ≡ true) zs
      still [] n k = tt
      still (z ∷ zs) n k = (
        rw (contains-without x z ys (ground (arith, ==_comm x z))) k.0,
        still zs (ground arith) k.1,
      )

  pub contains-snoc :
      (xs : List A) (a b : A) → contains (xs ++ a ∷ []) b ≡ (contains xs b || a == b)
  contains-snoc [] a b = ground arith
  contains-snoc (x ∷ xs) a b = ground (arith, contains-snoc xs a b)

  pub snoc-Distinct :
      (xs : List A) (a : A) → Distinct xs → contains xs a ≡ false → Distinct (xs ++ a ∷ [])
  snoc-Distinct [] a d n = (refl, tt)
  snoc-Distinct (x ∷ xs) a d n =
      (ground (arith, contains-snoc xs a x, ==_comm a x), snoc-Distinct xs a d.1 (ground arith))

-- The keys of the elements, where the test reads the key alone.
module _ {ℓ} {A : Type ℓ} {K : Type 0} ⦃e : PartialEq K⦄ (key : A → K) where
  pub contains-map : (xs : List A) (k : K) → contains (map key xs) k ≡ any (λ x. key x == k) xs
  contains-map [] k = refl
  contains-map (x ∷ xs) k = ground (arith, contains-map xs k)

  pub contains-retain :
      (q : K → Bool) (xs : List A) (k : K)
      → contains (map key (retain (λ x. q (key x)) xs)) k ≡ (contains (map key xs) k && q k)
  contains-retain q [] k = refl
  contains-retain q (x ∷ xs) k = elim (Bool-cases (key x == k)) [
    | inl same ↦
        let p = (e.is_eq_iff (key x) k).0 same in
        rw p (ground (arith, ==_refl k, contains-retain q xs k))
    | inr other ↦ ground (arith, contains-retain q xs k)
  ]

module _ {ℓ κ} {A : Type ℓ} {B : Type κ} where
  pub length-map : (xs : List A) (f : A → B) → length (map f xs) ≡ length xs
  length-map [] f = refl
  length-map (x ∷ xs) f = ap suc (length-map xs f)
