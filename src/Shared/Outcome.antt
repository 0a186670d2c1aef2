-- ===== src/Shared/Outcome.antt =====
-- `Result`, with `?` as bind, and the loop that stops at the first error.
use mathlib.Core.Path.{◌≡◌, refl}
use mathlib.Core.Bool.{Bool, true, false}
use mathlib.Core.List.{List, [], ◌∷◌}
use free_talk.Shared.Lists.{All}

pub data Result {ℓ κ} (E : Type κ) (A : Type ℓ) : Type (ℓ ⊔ κ) where
  ok : A → Result E A
  err : E → Result E A

module _ {ε} {E : Type ε} where
  -- `?`, with what follows it.
  infixl 5 ◌>>=◌
  abbrev pub ◌>>=◌ {ℓ κ} : {A : Type ℓ} → Result E A → {B : Type κ} → (A → Result E B) → Result E B
  err failure >>= next = err failure
  ok value >>= next = next value

  -- `check?; rest`
  infixl 5 ◌>>◌
  abbrev pub ◌>>◌ {κ} : Result E (Unit {0}) → {B : Type κ} → Result E B → Result E B
  check >> rest = check >>= λ done. rest

  -- `if !b { return Err(e) }`
  abbrev pub ensure : Bool → E → Result E (Unit {0})
  ensure false failure = err failure
  ensure true failure = ok tt

  -- `if b { return Err(e) }`
  abbrev pub reject : Bool → E → Result E (Unit {0})
  reject false failure = ok tt
  reject true failure = err failure

  -- What follows a `?` ran, so what stands before it succeeded.
  pub >>=-eq-ok {ℓ κ} :
      {A : Type ℓ} (first : Result E A) {B : Type κ} (next : A → Result E B) {done : B}
      → (first >>= next) ≡ ok done
      → (value : A) × (first ≡ ok value) × (next value ≡ ok done)
  >>=-eq-ok (err failure) next passed = cc
  >>=-eq-ok (ok value) next passed = (value, refl, passed)

  -- `for x in xs { check(x)?; }`
  abbrev pub for_each {ℓ} : {A : Type ℓ} → (A → Result E (Unit {0})) → List A → Result E (Unit {0})
  for_each check [] = ok tt
  for_each check (x ∷ xs) = check x >> for_each check xs

  pub for_each-All {ℓ} :
      {A : Type ℓ} (check : A → Result E (Unit {0})) (xs : List A)
      → for_each check xs ≡ ok tt
      → All (λ x. check x ≡ ok tt) xs
  for_each-All check [] h = tt
  for_each-All check (x ∷ xs) h =
      let p = >>=-eq-ok (check x) (λ _. for_each check xs) h in (p.1, for_each-All check xs p.2)

  pub All-for_each {ℓ} :
      {A : Type ℓ} (check : A → Result E (Unit {0})) (xs : List A)
      → All (λ x. check x ≡ ok tt) xs
      → for_each check xs ≡ ok tt
  All-for_each check [] h = refl
  All-for_each check (x ∷ xs) h = rw h.0 (All-for_each check xs h.1)

  -- A loop that changes a state and stops at the first error, with the state as it is there.
  abbrev pub run_all {ℓ κ} :
      {S : Type ℓ} {A : Type κ} → (S → A → Result E S) → S → List A → S × Result E (Unit {0})
  run_all step s [] = (s, ok tt)
  run_all step s (a ∷ xs) = elim (step s a) [ ok t ↦ run_all step t xs | err e ↦ (s, err e) ]

  module _ {ℓ κ μ} {S : Type ℓ} {A : Type κ} (step : S → A → Result E S) (P : S → Type μ)
      (keeps : (s t : S) (a : A) → P s → step s a ≡ ok t → P t) where
    -- What every step keeps, the loop keeps.
    pub run_all-keeps : (s : S) (xs : List A) → P s → P (run_all step s xs).0
    run_all-keeps s [] h = h
    run_all-keeps s (a ∷ xs) h = at (step s a) refl (λ t. run_all-keeps t xs)
      where
        at :
            (v : Result E S)
            → step s a ≡ v
            → ((t : S) → P t → P (run_all step t xs).0)
            → P (run_all step s (a ∷ xs)).0
        at (ok t) e next = rw (e, run_all) (next t (keeps s t a h e))
        at (err x) e next = rw (e, run_all) h
