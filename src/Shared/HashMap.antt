-- ===== src/Shared/HashMap.antt =====
-- `HashMap`: the list of its entries, a key at most once. The order of the entries is not read
-- by any definition that models code.
use mathlib.Core.Path.{◌≡◌, refl, subst}
use mathlib.Core.Logic.{inl, inr}
use Prim.Native.Nat.{◌+◌, ◌≤◌}
use mathlib.Core.Bool.{Bool, true, false, not, ◌||◌}
use mathlib.Core.List.{List, [], ◌∷◌, ◌++◌, map}
use mathlib.Core.Option
use mathlib.Core.Option.{Option, none, some}
use native.Mathlib.Omega.{arith}
use free_talk.Shared.Tests.{if◌then◌else◌, PartialEq, ◌==◌, Bool-cases}
use free_talk.Shared.Lists.{All, contains, length, retain}

abbrev pub HashMap {ℓ} : Type 0 → Type ℓ → Type ℓ
HashMap K V = List (K × V)

module _ {ℓ} {K : Type 0} {V : Type ℓ} ⦃e : PartialEq K⦄ where
  abbrev pub get : K → HashMap K V → Option V
  get k [] = none
  get k ((j, v) ∷ m) = if j == k then some v else get k m

  abbrev pub contains_key : K → HashMap K V → Bool
  contains_key k [] = false
  contains_key k ((j, v) ∷ m) = j == k || contains_key k m

  abbrev pub insert : K → V → HashMap K V → HashMap K V
  insert key value ((other, old) ∷ entries) =
      if other == key then (key, value) ∷ entries else (other, old) ∷ insert key value entries
  insert key value [] = (key, value) ∷ []

  -- `entry(k).or_insert(v)`
  abbrev pub or_insert : K → V → HashMap K V → HashMap K V
  or_insert k v m = if contains_key k m then m else insert k v m

  abbrev pub remove : K → HashMap K V → HashMap K V
  remove k [] = []
  remove k ((j, w) ∷ m) = if j == k then remove k m else (j, w) ∷ remove k m

  -- `if let Some(v) = get_mut(k) { … }`
  abbrev pub modify : K → (V → V) → HashMap K V → HashMap K V
  modify k f [] = []
  modify k f ((j, v) ∷ m) = if j == k then (j, f v) ∷ m else (j, v) ∷ modify k f m

  abbrev pub keys : HashMap K V → List K
  keys m = map (λ (p : K × V). p.0) m

  abbrev pub extend : HashMap K V → List (K × V) → HashMap K V
  extend m [] = m
  extend m ((k, v) ∷ ps) = extend (insert k v m) ps

  -- `iter().map(…).collect()`: of two entries with one key the later stays.
  abbrev pub collect : List (K × V) → HashMap K V
  collect ps = extend [] ps

  pub get-insert :
      (k j : K) (v : V) (m : HashMap K V)
      → get j (insert k v m) ≡ (if k == j then some v else get j m)
  get-insert k j v [] = refl
  get-insert k j v ((i, w) ∷ m) =
      ground (arith, e.is_eq_iff k j, e.is_eq_iff i k, e.is_eq_iff i j, get-insert k j v m)

  pub get-modify :
      (k j : K) (f : V → V) (m : HashMap K V)
      → get j (modify k f m) ≡ (if k == j then Option.map f (get j m) else get j m)
  get-modify k j f [] = ground arith
  get-modify k j f ((i, w) ∷ m) =
      ground (arith, e.is_eq_iff k j, e.is_eq_iff i k, e.is_eq_iff i j, get-modify k j f m)

  pub get-remove :
      (k j : K) (m : HashMap K V) → get j (remove k m) ≡ (if k == j then none else get j m)
  get-remove k j [] = ground arith
  get-remove k j ((i, w) ∷ m) =
      ground (arith, e.is_eq_iff k j, e.is_eq_iff i k, e.is_eq_iff i j, get-remove k j m)

  pub contains_key-insert :
      (k j : K) (v : V) (m : HashMap K V)
      → contains_key j (insert k v m) ≡ (k == j || contains_key j m)
  contains_key-insert k j v [] = refl
  contains_key-insert k j v ((i, w) ∷ m) =
      ground (arith, e.is_eq_iff k j, e.is_eq_iff i k, e.is_eq_iff i j, contains_key-insert k j v m)

  pub contains_key-extend :
      (m : HashMap K V) (ps : List (K × V)) (k : K)
      → contains_key k (extend m ps) ≡ (contains_key k m || contains_key k ps)
  contains_key-extend m [] k = ground arith
  contains_key-extend m ((j, v) ∷ ps) k =
      ground (arith, contains_key-extend (insert j v m) ps k, contains_key-insert j k v m)

  pub contains_key_of_get :
      (k : K) (v : V) (m : HashMap K V) → get k m ≡ some v → contains_key k m ≡ true
  contains_key_of_get k v [] h = cc
  contains_key_of_get k v ((j, w) ∷ m) h = ground (arith, contains_key_of_get k v m)

  pub get-ne-none_of_contains_key :
      (k : K) (m : HashMap K V) → contains_key k m ≡ true → (v : V) × (get k m ≡ some v)
  get-ne-none_of_contains_key k [] h = cc
  get-ne-none_of_contains_key k ((j, w) ∷ m) h = elim (Bool-cases (j == k)) [
    | inl same ↦ (w, rw same)
    | inr other ↦ rw other (get-ne-none_of_contains_key k m (ground arith))
  ]

  pub contains_key-keys : (m : HashMap K V) (k : K) → contains_key k m ≡ contains (keys m) k
  contains_key-keys [] k = refl
  contains_key-keys ((j, v) ∷ m) k = ground (arith, contains_key-keys m k)

  pub All-insert {κ} :
      (P : K × V → Type κ) (k : K) (v : V) (m : HashMap K V)
      → P (k, v)
      → All P m
      → All P (insert k v m)
  All-insert P k v [] p h = (p, tt)
  All-insert P k v ((j, w) ∷ m) p h = elim (Bool-cases (j == k)) [
    | inl same ↦ rw same (p, h.1)
    | inr other ↦ rw other (h.0, All-insert P k v m p h.1)
  ]

  pub All-extend {κ} :
      (P : K × V → Type κ) (m : HashMap K V) (ps : List (K × V))
      → All P m
      → All P ps
      → All P (extend m ps)
  All-extend P m [] h p = h
  All-extend P m ((k, v) ∷ ps) h p = All-extend P (insert k v m) ps (All-insert P k v m p.0 h) p.1

  -- An entry that is found is one of the entries.
  pub All-get {κ} :
      (P : K × V → Type κ) (k : K) (v : V) (m : HashMap K V) → All P m → get k m ≡ some v → P (k, v)
  All-get P k v [] h g = cc
  All-get P k v ((j, w) ∷ m) h g = elim (Bool-cases (j == k)) [
    | inl same ↦
        let p : ◌≡◌ {A = K × V} (j, w) (k, v) = ground (arith, (e.is_eq_iff j k).0 same) in
        subst P p h.0
    | inr other ↦ All-get P k v m h.1 (ground arith)
  ]

  pub length-insert :
      (k : K) (v : V) (m : HashMap K V)
      → length (insert k v m) ≡ (if contains_key k m then length m else length m + 1)
  length-insert k v [] = omega arith
  length-insert k v ((j, w) ∷ m) = ground (arith, length-insert k v m)

  pub length-extend-le :
      (m : HashMap K V) (ps : List (K × V)) → length (extend m ps) ≤ length m + length ps
  length-extend-le m [] = omega arith
  length-extend-le m ((k, v) ∷ ps) =
      ground (arith, length-extend-le (insert k v m) ps, length-insert k v m)

  pub contains_key-or_insert :
      (k j : K) (v : V) (m : HashMap K V)
      → contains_key j (or_insert k v m) ≡ (contains_key j m || k == j)
  contains_key-or_insert k j v m = elim (Bool-cases (k == j)) [
    | inl same ↦
        let p = (e.is_eq_iff k j).0 same in
        ground (
          arith,
          contains_key-insert k j v m,
          subst (λ i. contains_key k m ≡ contains_key i m) p refl,
        )
    | inr other ↦ ground (arith, contains_key-insert k j v m)
  ]

  pub keys-insert :
      (k : K) (v : V) (m : HashMap K V)
      → keys (insert k v m) ≡ (if contains (keys m) k then keys m else keys m ++ k ∷ [])
  keys-insert k v [] = refl
  keys-insert k v ((j, w) ∷ m) = ground (arith, e.is_eq_iff j k, keys-insert k v m)

  pub keys-remove :
      (k : K) (m : HashMap K V) → keys (remove k m) ≡ retain (λ j. not (j == k)) (keys m)
  keys-remove k [] = refl
  keys-remove k ((j, w) ∷ m) = ground (arith, keys-remove k m)

-- A value that is found is one of the values.
pub contains-values {ℓ} :
    {K : Type 0} {V : Type ℓ} ⦃e : PartialEq K⦄ ⦃f : PartialEq V⦄ (k : K) (v : V) (m : HashMap K V)
    → get k m ≡ some v
    → contains (map (λ (p : K × V). p.1) m) v ≡ true
contains-values k v [] h = cc
contains-values ⦃e⦄ ⦃f⦄ k v ((j, w) ∷ m) h = ground (arith, contains-values k v m, f.is_eq_iff w v)
