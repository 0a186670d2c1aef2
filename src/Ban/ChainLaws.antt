-- ===== src/Ban/ChainLaws.antt =====
-- The search for the banning member above the banned one (`validate_invite_chain` of
-- common/src/board_state/ban.rs): it ends, and it accepts exactly the members above.
use free_talk.Shared.{
  ℕ, zero, suc, ◌+◌, ◌≤◌, ◌<◌, ◌≡◌, ◌≢◌, ◌⊎◌, ◌↔◌, inl, inr, refl, sym, ◌∙◌, subst, ap, arith, true,
  false, List, [], ◌∷◌, ◌++◌, map, some, Result, ok, err, length, length-append, length-map,
  contains, All, All-append, All-mono, All_contains, Distinct, pigeonhole, snoc-Distinct, nat_eq,
  ==_refl, Bool-cases,
}
use free_talk.Shared.HashMap
use free_talk.Shared.HashMap.{HashMap}
use free_talk.Model.{Crypto, MemberId, AuthorizedMember, BanValidationError, member_id, member_eq}
use free_talk.Member.Chain.{invited_by}
use free_talk.Ban.Validate.{invite_chain_loop, validate_invite_chain}

module _ (c : Crypto) (banned banning : AuthorizedMember) (m : HashMap MemberId AuthorizedMember)
    (owner : MemberId) where
  abbrev loop : ℕ → AuthorizedMember → List AuthorizedMember → Result BanValidationError (Unit {0})
  loop = invite_chain_loop c banned banning m owner

  starved_step :
      (fuel : ℕ) (x : AuthorizedMember) (chain : List AuthorizedMember)
      → loop (suc fuel) x chain ≡ err BanValidationError.out_of_fuel
      → (i : AuthorizedMember) × (HashMap.get (invited_by x) m ≡ some i)
        × (contains (chain ++ x ∷ []) i ≡ false)
        × (loop fuel i (chain ++ x ∷ []) ≡ err BanValidationError.out_of_fuel)
  unfolding invite_chain_loop
  starved_step fuel x chain h = ground arith

  loop-total :
      (known : List AuthorizedMember) (fuel : ℕ) (x : AuthorizedMember)
      (chain : List AuthorizedMember)
      → ((k : MemberId) (i : AuthorizedMember) → HashMap.get k m ≡ some i → contains known i ≡ true)
      → Distinct (chain ++ x ∷ [])
      → All (λ y. contains known y ≡ true) (chain ++ x ∷ [])
      → length known + 1 ≤ fuel + length (chain ++ x ∷ [])
      → loop fuel x chain ≢ err BanValidationError.out_of_fuel
  loop-total known zero x chain values d within enough h =
      absurd (omega (arith, pigeonhole (chain ++ x ∷ []) known d within))
  loop-total known (suc fuel) x chain values d within enough h =
      let (i, found, fresh, rest) = starved_step fuel x chain h in
      loop-total known fuel i (chain ++ x ∷ []) values (snoc-Distinct (chain ++ x ∷ []) i d fresh)
        (All-append (λ y. contains known y ≡ true) (chain ++ x ∷ []) (i ∷ []) within
          (values (invited_by x) i found, tt))
        (omega (arith, length-append (chain ++ x ∷ []) (i ∷ []))) rest

  -- The search always ends.
  validate_invite_chain_total :
      validate_invite_chain c banned banning m owner ≢ err BanValidationError.out_of_fuel
  unfolding validate_invite_chain
  validate_invite_chain_total =
      loop-total (banned ∷ map (λ (e : MemberId × AuthorizedMember). e.1) m) (length m + 2) banned
        [] (λ k i h. ground (arith, HashMap.contains-values k i m h)) (refl, tt)
        (ground (arith, ==_refl banned), tt)
        (omega (arith, length-map m (λ (e : MemberId × AuthorizedMember). e.1)))

  -- The banning member is `x`, or stands above `x` below the owner.
  pub data Above : AuthorizedMember → Type 0 where
    here :
        {x : AuthorizedMember}
        → member_id c x ≢ owner
        → member_id c x ≡ member_id c banning
        → Above x
    up :
        {x i : AuthorizedMember}
        → member_id c x ≢ owner
        → member_id c x ≢ member_id c banning
        → HashMap.get (invited_by x) m ≡ some i
        → Above i
        → Above x

  -- One round of the search that ends well.
  Steps : ℕ → AuthorizedMember → List AuthorizedMember → Type 0
  Steps fuel x chain =
      (member_id c x ≢ owner)
      × ((member_id c x ≡ member_id c banning)
          ⊎ ((i : AuthorizedMember) × (member_id c x ≢ member_id c banning)
              × (HashMap.get (invited_by x) m ≡ some i)
              × (contains (chain ++ x ∷ []) i ≡ false)
              × (loop fuel i (chain ++ x ∷ []) ≡ ok tt)))

  loop_step :
      (fuel : ℕ) (x : AuthorizedMember) (chain : List AuthorizedMember)
      → loop (suc fuel) x chain ≡ ok tt
      → Steps fuel x chain
  unfolding invite_chain_loop Steps
  loop_step fuel x chain h = ground arith

  step_loop :
      (fuel : ℕ) (x : AuthorizedMember) (chain : List AuthorizedMember)
      → Steps fuel x chain
      → loop (suc fuel) x chain ≡ ok tt
  unfolding invite_chain_loop Steps
  step_loop fuel x chain (n, inl e) = ground arith
  step_loop fuel x chain (n, inr (i, o, g, f, r)) = ground arith

  loop_sound :
      (fuel : ℕ) (x : AuthorizedMember) (chain : List AuthorizedMember)
      → loop fuel x chain ≡ ok tt
      → Above x
  unfolding invite_chain_loop Steps
  loop_sound zero x chain h = cc
  loop_sound (suc fuel) x chain h =
      go (loop_step fuel x chain h) (λ i. loop_sound fuel i (chain ++ x ∷ []))
    where
      go :
          Steps fuel x chain
          → ((i : AuthorizedMember) → loop fuel i (chain ++ x ∷ []) ≡ ok tt → Above i)
          → Above x
      go (n, inl e) ih = Above.here n e
      go (n, inr (i, o, g, f, r)) ih = Above.up n o g (ih i r)

  -- How far above the banning member is: the same by every derivation, and less at each round.
  height : {x : AuthorizedMember} → Above x → ℕ
  height (Above.here n e) = 0
  height (Above.up n o g a) = suc (height a)

  height_unique : {x y : AuthorizedMember} (a : Above x) (b : Above y) → x ≡ y → height a ≡ height b
  unfolding height
  height_unique (Above.here n e) (Above.here n' e') s = refl
  height_unique (Above.here n e) (Above.up n' o g b) s =
      absurd (o (subst (λ z. member_id c z ≡ member_id c banning) s e))
  height_unique (Above.up n o g a) (Above.here n' e') s =
      absurd (o (subst (λ z. member_id c z ≡ member_id c banning) (sym s) e'))
  height_unique (Above.up {i = i} n o g a) (Above.up {x = y} {i = j} n' o' g' b) s =
      let e : some i ≡ some j =
        sym g ∙ subst (λ z. HashMap.get (invited_by z) m ≡ some j) (sym s) g' in
      ap suc (height_unique a b (cc))

  abbrev Higher : ℕ → AuthorizedMember → Type 0
  Higher h y = (b : Above y) × (h < height b)

  step_eq :
      (fuel : ℕ) (x i : AuthorizedMember) (chain : List AuthorizedMember)
      → member_id c x ≢ owner
      → member_id c x ≢ member_id c banning
      → HashMap.get (invited_by x) m ≡ some i
      → contains (chain ++ x ∷ []) i ≡ false
      → loop (suc fuel) x chain ≡ loop fuel i (chain ++ x ∷ [])
  unfolding invite_chain_loop
  step_eq fuel x i chain n o g f = ground arith

  loop_complete :
      (fuel : ℕ) {x : AuthorizedMember} (chain : List AuthorizedMember) (a : Above x)
      → All (Higher (height a)) chain
      → (loop fuel x chain ≡ ok tt) ⊎ (loop fuel x chain ≡ err BanValidationError.out_of_fuel)
  unfolding invite_chain_loop Steps height
  loop_complete zero chain a h = inr refl
  loop_complete (suc fuel) {x} chain (Above.here n e) h = inl (step_loop fuel x chain (n, inl e))
  loop_complete (suc fuel) {x} chain (Above.up {i = i} n o g a) h =
      subst (λ r. (r ≡ ok tt) ⊎ (r ≡ err BanValidationError.out_of_fuel))
        (sym (step_eq fuel x i chain n o g fresh)) (loop_complete fuel (chain ++ x ∷ []) a higher)
    where
      higher : All (Higher (height a)) (chain ++ x ∷ [])
      higher =
          All-append (Higher (height a)) chain (x ∷ [])
            (All-mono (Higher (suc (height a))) (Higher (height a)) chain
              (λ y q. (q.0, omega (arith, q.1))) h)
            ((Above.up n o g a, omega arith), tt)

      not_again : contains (chain ++ x ∷ []) i ≡ true → ⊥
      not_again t =
          let q = All_contains (Higher (height a)) (chain ++ x ∷ []) i higher t in
          omega (arith, q.1, height_unique a q.0 refl)

      fresh : contains (chain ++ x ∷ []) i ≡ false
      fresh = elim (Bool-cases (contains (chain ++ x ∷ []) i)) [
        | inl t ↦ absurd (not_again t)
        | inr f ↦ f
      ]

  -- A ban passes the check exactly when the banning member is the banned one or stands above him,
  -- below the owner.
  pub validate_invite_chain_iff :
      (validate_invite_chain c banned banning m owner ≡ ok tt) ↔ Above banned
  unfolding validate_invite_chain
  validate_invite_chain_iff = (
    (λ h. loop_sound (length m + 2) banned [] h),
    λ a. elim (loop_complete (length m + 2) [] a tt) [
      | inl good ↦ good
      | inr starved ↦ absurd (validate_invite_chain_total starved)
    ],
  )
