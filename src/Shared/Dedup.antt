-- ===== src/Shared/Dedup.antt =====
-- The loop by which `apply_delta` adds the elements of a delta whose identifier is new:
-- `if self.iter().any(|m| m.id() == x.id()) { continue; } self.push(x)`.
use mathlib.Core.Path.{◌≡◌, refl, ◌∙◌, subst}
use mathlib.Core.Logic.{inl, inr}
use mathlib.Core.Bool.{false, ◌||◌}
use mathlib.Core.List.{List, [], ◌∷◌, ◌++◌, map}
use native.Mathlib.Omega.{arith}
use Prim.Native.Nat.{ℕ, ◌+◌}
use free_talk.Shared.Tests.{if◌then◌else◌, Bool-cases, nat_eq, nat_beq_iff, ==_comm}
use free_talk.Shared.Lists.{
  All, contains, any, Distinct, contains-map, any-append, length, length-append, All-append,
  All-of_All, All-mono,
}
use free_talk.Shared.HashMap
use free_talk.Shared.HashMap.{HashMap}

module _ {A : Type 0} (key : A → ℕ) where
  unfoldable pub push_if_new : List A → A → List A
  push_if_new xs x = if any (λ y. nat_eq.is_eq (key y) (key x)) xs then xs else xs ++ x ∷ []

  unfoldable pub push_new : List A → List A → List A
  unfolding push_if_new
  push_new xs [] = xs
  push_new xs (x ∷ ds) = push_new (push_if_new xs x) ds

  contains-push_if_new :
      (xs : List A) (x : A) (k : ℕ)
      → contains (map key (push_if_new xs x)) k
        ≡ (contains (map key xs) k || nat_eq.is_eq (key x) k)
  unfolding push_if_new
  contains-push_if_new xs x k = elim (Bool-cases (nat_eq.is_eq (key x) k)) [
    | inl same ↦
        let e = (nat_beq_iff (key x) k).0 same in
        ground (
          arith,
          e,
          contains-map key xs k,
          contains-map key (xs ++ x ∷ []) k,
          any-append (λ y. nat_eq.is_eq (key y) k) xs (x ∷ []),
          contains-map key xs (key x),
          subst (λ j. contains (map key xs) (key x) ≡ contains (map key xs) j) e refl,
        )
    | inr other ↦ ground (
      arith,
      contains-map key xs k,
      contains-map key (xs ++ x ∷ []) k,
      any-append (λ y. nat_eq.is_eq (key y) k) xs (x ∷ []),
    )
  ]

  -- The identifiers after the loop are those before it and those of the delta.
  pub contains-push_new :
      (xs ds : List A) (k : ℕ)
      → contains (map key (push_new xs ds)) k ≡ (contains (map key xs) k || contains (map key ds) k)
  unfolding push_new
  contains-push_new xs [] k = ground arith
  contains-push_new xs (x ∷ ds) k =
      ground (arith, contains-push_new (push_if_new xs x) ds k, contains-push_if_new xs x k)

  Distinct-snoc :
      (xs : List A) (x : A)
      → Distinct (map key xs)
      → contains (map key xs) (key x) ≡ false
      → Distinct (map key (xs ++ x ∷ []))
  Distinct-snoc [] x d n = (refl, tt)
  Distinct-snoc (y ∷ ys) x d n = (
    ground (
      arith,
      contains-map key ys (key y),
      contains-map key (ys ++ x ∷ []) (key y),
      any-append (λ z. nat_eq.is_eq (key z) (key y)) ys (x ∷ []),
      ==_comm (key x) (key y),
    ),
    Distinct-snoc ys x d.1 (ground arith),
  )

  push_if_new-Distinct :
      (xs : List A) (x : A) → Distinct (map key xs) → Distinct (map key (push_if_new xs x))
  unfolding push_if_new
  push_if_new-Distinct xs x d = elim (Bool-cases (any (λ y. nat_eq.is_eq (key y) (key x)) xs)) [
    | inl old ↦ rw old d
    | inr new ↦ rw new (Distinct-snoc xs x d (contains-map key xs (key x) ∙ new))
  ]

  pub push_new-Distinct :
      (xs ds : List A) → Distinct (map key xs) → Distinct (map key (push_new xs ds))
  unfolding push_new
  push_new-Distinct xs [] d = d
  push_new-Distinct xs (x ∷ ds) d =
      push_new-Distinct (push_if_new xs x) ds (push_if_new-Distinct xs x d)

  push_if_new-All {κ} :
      (P : A → Type κ) (xs : List A) (x : A) → All P xs → P x → All P (push_if_new xs x)
  unfolding push_if_new
  push_if_new-All P xs x h p = elim (Bool-cases (any (λ y. nat_eq.is_eq (key y) (key x)) xs)) [
    | inl old ↦ rw old h
    | inr new ↦ rw new (All-append P xs (x ∷ []) h (p, tt))
  ]

  -- What holds of the old elements and of the delta's holds of all after the loop.
  pub push_new-All {κ} :
      (P : A → Type κ) (xs ds : List A) → All P xs → All P ds → All P (push_new xs ds)
  unfolding push_new
  push_new-All P xs [] h p = h
  push_new-All P xs (x ∷ ds) h p =
      push_new-All P (push_if_new xs x) ds (push_if_new-All P xs x h p.0) p.1

  -- The map from identifier to element, and the entries that a delta adds where there is none.
  abbrev pub by_id : List A → HashMap ℕ A
  by_id xs = HashMap.collect (map (λ x. (key x, x)) xs)

  abbrev pub or_insert_all : HashMap ℕ A → List A → HashMap ℕ A
  or_insert_all m [] = m
  or_insert_all m (x ∷ ds) = or_insert_all (HashMap.or_insert (key x) x m) ds

  contains_key-pairs :
      (xs : List A) (k : ℕ)
      → HashMap.contains_key k (map (λ x. (key x, x)) xs) ≡ contains (map key xs) k
  contains_key-pairs [] k = refl
  contains_key-pairs (x ∷ xs) k = ground (arith, contains_key-pairs xs k)

  pub contains_key-by_id :
      (xs : List A) (k : ℕ) → HashMap.contains_key k (by_id xs) ≡ contains (map key xs) k
  contains_key-by_id xs k =
      HashMap.contains_key-extend [] (map (λ x. (key x, x)) xs) k ∙ contains_key-pairs xs k

  All-pairs {κ} :
      (P : A → Type κ) (xs : List A)
      → All P xs
      → All (λ (p : ℕ × A). P p.1 × (key p.1 ≡ p.0)) (map (λ x. (key x, x)) xs)
  All-pairs P [] h = tt
  All-pairs P (x ∷ xs) h = ((h.0, refl), All-pairs P xs h.1)

  -- A looked-up element is one of the list, and has the identifier that was asked for.
  pub All-by_id {κ} :
      (P : A → Type κ) (xs : List A)
      → All P xs
      → All (λ (p : ℕ × A). P p.1 × (key p.1 ≡ p.0)) (by_id xs)
  All-by_id P xs h =
      HashMap.All-extend (λ (p : ℕ × A). P p.1 × (key p.1 ≡ p.0)) [] (map (λ x. (key x, x)) xs) tt
        (All-pairs P xs h)

  length-extend_new :
      (m : HashMap ℕ A) (xs : List A)
      → All (λ k. HashMap.contains_key k m ≡ false) (map key xs)
      → Distinct (map key xs)
      → length (HashMap.extend m (map (λ x. (key x, x)) xs)) ≡ length m + length xs
  length-extend_new m [] n d = omega arith
  length-extend_new m (x ∷ xs) n d = ground (
    arith,
    length-extend_new (HashMap.insert (key x) x m) xs (fresh xs n.1 d.0) d.1,
    HashMap.length-insert (key x) x m,
    n.0,
  )
    where
      fresh :
          (ys : List A)
          → All (λ k. HashMap.contains_key k m ≡ false) (map key ys)
          → contains (map key ys) (key x) ≡ false
          → All (λ k. HashMap.contains_key k (HashMap.insert (key x) x m) ≡ false) (map key ys)
      fresh [] h c = tt
      fresh (y ∷ ys) h c = (
        ground
            (arith, HashMap.contains_key-insert (key x) (key y) x m, ==_comm (key y) (key x), h.0),
        fresh ys h.1 (ground arith),
      )

  -- The combined map holds as many entries as the loop leaves elements.
  length-or_insert_all :
      (m : HashMap ℕ A) (xs ds : List A)
      → ((k : ℕ) → HashMap.contains_key k m ≡ contains (map key xs) k)
      → length m ≡ length xs
      → length (or_insert_all m ds) ≡ length (push_new xs ds)
  unfolding push_new push_if_new
  length-or_insert_all m xs [] same len = len
  length-or_insert_all m xs (x ∷ ds) same len =
      length-or_insert_all (HashMap.or_insert (key x) x m) (push_if_new xs x) ds (λ k. same_step k)
        len_step
    where
      same_step :
          (k : ℕ)
          → HashMap.contains_key k (HashMap.or_insert (key x) x m)
            ≡ contains (map key (push_if_new xs x)) k
      same_step k =
          ground (
            arith,
            contains-push_if_new xs x k,
            same k,
            HashMap.contains_key-or_insert (key x) k x m,
          )

      len_step : length (HashMap.or_insert (key x) x m) ≡ length (push_if_new xs x)
      len_step = ground (
        arith,
        same (key x),
        contains-map key xs (key x),
        HashMap.length-insert (key x) x m,
        length-append xs (x ∷ []),
      )

  pub length-combined :
      (xs ds : List A)
      → Distinct (map key xs)
      → length (or_insert_all (by_id xs) ds) ≡ length (push_new xs ds)
  length-combined xs ds d = length-or_insert_all (by_id xs) xs ds (contains_key-by_id xs) (
      omega (
        arith,
        length-extend_new [] xs
            (All-of_All (λ k. HashMap.contains_key {V = A} k [] ≡ false) (map key xs) (λ k. refl))
            d,
      ))

  -- Every entry stands under its own identifier.
  abbrev pub Keyed : HashMap ℕ A → Type 0
  Keyed m = All (λ (e : ℕ × A). key e.1 ≡ e.0) m

  pub by_id-Keyed : (xs : List A) → Keyed (by_id xs)
  by_id-Keyed xs =
      All-mono (λ (e : ℕ × A). Unit {0} × (key e.1 ≡ e.0)) (λ (e : ℕ × A). key e.1 ≡ e.0) (by_id xs)
        (λ e h. h.1) (All-by_id (λ x. Unit {0}) xs (All-of_All (λ x. Unit {0}) xs (λ x. tt)))

  pub or_insert_all-Keyed : (m : HashMap ℕ A) (ds : List A) → Keyed m → Keyed (or_insert_all m ds)
  or_insert_all-Keyed m [] h = h
  or_insert_all-Keyed m (x ∷ ds) h = elim (Bool-cases (HashMap.contains_key (key x) m)) [
    | inl old ↦ rw old (or_insert_all-Keyed m ds h)
    | inr new ↦ rw new (
        or_insert_all-Keyed (HashMap.insert (key x) x m) ds
          (HashMap.All-insert (λ (e : ℕ × A). key e.1 ≡ e.0) (key x) x m refl h))
  ]
