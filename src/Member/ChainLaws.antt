-- ===== src/Member/ChainLaws.antt =====
-- The chain of invitations (common/src/board_state/member.rs): the walk up to the owner ends, and
-- it finds exactly the chains in which each member was signed by the one above.
use free_talk.Shared.{
  ℕ, zero, suc, ◌+◌, ◌≤◌, ◌<◌, ◌≡◌, ◌≢◌, ◌⊎◌, ◌↔◌, inl, inr, refl, sym, ◌∙◌, ap, subst, arith, true,
  false, List, [], ◌∷◌, ◌++◌, some, ok, err, length, contains, map, All, Distinct, pigeonhole,
  nat_eq, list_eq, ==_refl, ==_comm, All-of_All, length-map,
}
use mathlib.Core.List.{append_assoc, append-nil}
use free_talk.Shared.HashMap
use free_talk.Shared.HashMap.{HashMap}
use free_talk.Shared.HashSet.{HashSet}
use free_talk.Model.{
  Crypto, MemberId, AuthorizedMember, ChatBoardParametersV1, out_of_fuel, member_id,
}
use free_talk.Member.Chain.{
  invited_by, verify_signature, owner_id, invite_chain_loop, get_invite_chain_with_lookup,
}

apart :
    (a : MemberId) (visited ks : List MemberId)
    → All (λ k. contains (a ∷ visited) k ≡ false) ks
    → (contains ks a ≡ false) × All (λ k. contains visited k ≡ false) ks
apart a visited [] h = (refl, tt)
apart a visited (k ∷ ks) h =
    let rest = apart a visited ks h.1 in
    (ground (arith, rest.0, ==_comm a k), (ground arith, rest.1))

together :
    (a : MemberId) (visited ks : List MemberId)
    → contains ks a ≡ false
    → All (λ k. contains visited k ≡ false) ks
    → All (λ k. contains (a ∷ visited) k ≡ false) ks
together a visited [] n h = tt
together a visited (k ∷ ks) n h =
    (ground (arith, ==_comm a k), together a visited ks (ground arith) h.1)

module _ (c : Crypto) (p : ChatBoardParametersV1) (m : HashMap MemberId AuthorizedMember) where
  -- Each member is found under its identifier.
  abbrev pub Keyed : Type 0
  Keyed = All (λ (e : MemberId × AuthorizedMember). member_id c e.1 ≡ e.0) m

  -- `chain` leads from a member to the owner: each was signed by the next, the last by the owner.
  abbrev pub Authentic : AuthorizedMember → List AuthorizedMember → Type 0
  Authentic x [] =
      (invited_by x ≢ member_id c x)
      × (invited_by x ≡ owner_id c p)
      × (verify_signature c x p.owner ≡ true)
  Authentic x (i ∷ chain) =
      ((invited_by x ≢ member_id c x)
        × (invited_by x ≢ owner_id c p)
        × (HashMap.get (invited_by x) m ≡ some i)
        × (verify_signature c x i.member.member_vk ≡ true))
      × Authentic i chain

  -- One round of the walk that ends well.
  Steps :
      ℕ
      → HashSet MemberId
      → AuthorizedMember
      → List AuthorizedMember
      → List AuthorizedMember
      → Type 0
  Steps fuel visited x chain r =
      (contains visited (member_id c x) ≡ false)
      × (invited_by x ≢ member_id c x)
      × (((invited_by x ≡ owner_id c p) × (verify_signature c x p.owner ≡ true) × (r ≡ chain))
          ⊎ ((i : AuthorizedMember) × (invited_by x ≢ owner_id c p)
              × (HashMap.get (invited_by x) m ≡ some i)
              × (verify_signature c x i.member.member_vk ≡ true)
              × (invite_chain_loop c p m fuel (member_id c x ∷ visited) i (chain ++ i ∷ [])
                  ≡ ok r)))

  loop_step :
      (fuel : ℕ) (visited : HashSet MemberId) (x : AuthorizedMember)
      (chain r : List AuthorizedMember)
      → invite_chain_loop c p m (suc fuel) visited x chain ≡ ok r
      → Steps fuel visited x chain r
  unfolding invite_chain_loop Steps
  loop_step fuel visited x chain r h = ground arith

  step_loop :
      (fuel : ℕ) (visited : HashSet MemberId) (x : AuthorizedMember)
      (chain r : List AuthorizedMember)
      → Steps fuel visited x chain r
      → invite_chain_loop c p m (suc fuel) visited x chain ≡ ok r
  unfolding invite_chain_loop Steps
  step_loop fuel visited x chain r (fresh, other, inl (owner, signed, done)) = ground arith
  step_loop fuel visited x chain r (fresh, other, inr (i, not_owner, found, signed, rest)) =
      ground arith

  -- A walk that uses up its fuel has made another round, at an entry of the map.
  starved_step :
      (fuel : ℕ) (visited : HashSet MemberId) (x : AuthorizedMember) (chain : List AuthorizedMember)
      → invite_chain_loop c p m (suc fuel) visited x chain ≡ err out_of_fuel
      → (i : AuthorizedMember) × (contains visited (member_id c x) ≡ false)
        × (HashMap.get (invited_by x) m ≡ some i)
        × (invite_chain_loop c p m fuel (member_id c x ∷ visited) i (chain ++ i ∷ [])
            ≡ err out_of_fuel)
  unfolding invite_chain_loop
  starved_step fuel visited x chain h = ground arith

  -- The walk meets only its start and entries of the map, each once, so it has fuel enough.
  loop_total :
      (known : List MemberId) (fuel : ℕ) (visited : HashSet MemberId) (x : AuthorizedMember)
      (chain : List AuthorizedMember)
      → Keyed
      → ((k : MemberId) → HashMap.contains_key k m ≡ true → contains known k ≡ true)
      → contains known (member_id c x) ≡ true
      → Distinct visited
      → All (λ k. contains known k ≡ true) visited
      → length known + 1 ≤ fuel + length visited
      → invite_chain_loop c p m fuel visited x chain ≢ err out_of_fuel
  loop_total known zero visited x chain keyed keys at d within enough h =
      absurd (omega (arith, pigeonhole visited known d within))
  loop_total known (suc fuel) visited x chain keyed keys at d within enough h =
      let (i, fresh, found, rest) = starved_step fuel visited x chain h in
      loop_total known fuel (member_id c x ∷ visited) i (chain ++ i ∷ []) keyed keys
        (rw
          (HashMap.All-get (λ (e : MemberId × AuthorizedMember). member_id c e.1 ≡ e.0)
            (invited_by x) i m keyed found)
          (keys (invited_by x) (HashMap.contains_key_of_get (invited_by x) i m found)))
        (fresh, d) (at, within) (omega arith) rest

  length-keys : (l : HashMap MemberId AuthorizedMember) → length (HashMap.keys l) ≡ length l
  length-keys [] = refl
  length-keys (e ∷ l) = ap suc (length-keys l)

  -- The walk up the invitations always ends.
  pub get_invite_chain_total :
      (x : AuthorizedMember) → Keyed → get_invite_chain_with_lookup c x p m ≢ err out_of_fuel
  unfolding get_invite_chain_with_lookup
  get_invite_chain_total x keyed =
      loop_total (member_id c x ∷ HashMap.keys m) (length m + 2) [] x [] keyed
        (λ k h. ground (arith, HashMap.contains_key-keys m k))
        (ground (arith, ==_refl (member_id c x))) tt tt (omega (arith, length-keys m))

  abbrev ids : List AuthorizedMember → List MemberId
  ids l = map (member_id c) l

  abbrev Unvisited : HashSet MemberId → List AuthorizedMember → Type 0
  Unvisited visited l = All (λ k. contains visited k ≡ false) (ids l)

  -- What the walk finds, added to what it was given.
  abbrev Found :
      HashSet MemberId → AuthorizedMember → List AuthorizedMember → List AuthorizedMember → Type 0
  Found visited x chain r =
      (rest : List AuthorizedMember) × (r ≡ chain ++ rest)
      × Authentic x rest
      × Distinct (ids (x ∷ rest))
      × Unvisited visited (x ∷ rest)

  loop_sound :
      (fuel : ℕ) (visited : HashSet MemberId) (x : AuthorizedMember)
      (chain r : List AuthorizedMember)
      → invite_chain_loop c p m fuel visited x chain ≡ ok r
      → Found visited x chain r
  unfolding invite_chain_loop Steps
  loop_sound zero visited x chain r h = cc
  loop_sound (suc fuel) visited x chain r h =
      go (loop_step fuel visited x chain r h)
        (λ i. loop_sound fuel (member_id c x ∷ visited) i (chain ++ i ∷ []) r)
    where
      go :
          Steps fuel visited x chain r
          → ((i : AuthorizedMember)
              → invite_chain_loop c p m fuel (member_id c x ∷ visited) i (chain ++ i ∷ []) ≡ ok r
              → Found (member_id c x ∷ visited) i (chain ++ i ∷ []) r)
          → Found visited x chain r
      go (fresh, other, inl (owner, signed, done)) ih =
          ([], simp append-nil done, (other, owner, signed), (refl, tt), (fresh, tt))
      go (fresh, other, inr (i, not_owner, found, signed, rest)) ih =
          let (above, eq, authentic, distinct, unvisited) = ih i rest in
          let parts = apart (member_id c x) visited (ids (i ∷ above)) unvisited in
          (
            i ∷ above,
            eq ∙ append_assoc chain (i ∷ []) above,
            ((other, not_owner, found, signed), authentic),
            (parts.0, distinct),
            (fresh, parts.1),
          )

  loop_complete :
      (fuel : ℕ) (visited : HashSet MemberId) (x : AuthorizedMember)
      (chain rest : List AuthorizedMember)
      → Authentic x rest
      → Distinct (ids (x ∷ rest))
      → Unvisited visited (x ∷ rest)
      → length rest < fuel
      → invite_chain_loop c p m fuel visited x chain ≡ ok (chain ++ rest)
  unfolding Steps
  loop_complete zero visited x chain rest a d u lt = absurd (omega arith)
  loop_complete (suc fuel) visited x chain [] a d u lt =
      step_loop fuel visited x chain (chain ++ []) (u.0, a.0, inl (a.1, a.2, append-nil chain))
  loop_complete (suc fuel) visited x chain (i ∷ rest) a d u lt =
      step_loop fuel visited x chain (chain ++ i ∷ rest) (
        u.0,
        a.0.0,
        inr (
          i,
          a.0.1,
          a.0.2,
          a.0.3,
          loop_complete fuel (member_id c x ∷ visited) i (chain ++ i ∷ []) rest a.1 d.1
                (together (member_id c x) visited (ids (i ∷ rest)) d.0 u.1) (omega arith)
              ∙ ap ok (append_assoc chain (i ∷ []) rest),
        ),
      )

  -- A chain that does not repeat a member is no longer than the map.
  chain_keys :
      (x : AuthorizedMember) (rest : List AuthorizedMember)
      → Keyed
      → Authentic x rest
      → All (λ k. contains (HashMap.keys m) k ≡ true) (ids rest)
  chain_keys x [] keyed a = tt
  chain_keys x (i ∷ rest) keyed a = (
    rw
        (HashMap.All-get (λ (e : MemberId × AuthorizedMember). member_id c e.1 ≡ e.0) (invited_by x)
          i m keyed a.0.2)
        (ground (
          arith,
          HashMap.contains_key_of_get (invited_by x) i m a.0.2,
          HashMap.contains_key-keys m (invited_by x),
        )),
    chain_keys i rest keyed a.1,
  )

  -- The walk returns a chain exactly when it is authentic and no member occurs twice in it, the
  -- start included.
  pub get_invite_chain_iff :
      (x : AuthorizedMember) (chain : List AuthorizedMember)
      → Keyed
      → (get_invite_chain_with_lookup c x p m ≡ ok chain)
        ↔ (Authentic x chain × Distinct (ids (x ∷ chain)))
  unfolding get_invite_chain_with_lookup
  get_invite_chain_iff x chain keyed = (forward, backward)
    where
      forward :
          invite_chain_loop c p m (length m + 2) [] x [] ≡ ok chain
          → Authentic x chain × Distinct (ids (x ∷ chain))
      forward h =
          let (rest, eq, authentic, distinct, unvisited) =
            loop_sound (length m + 2) [] x [] chain h in
          subst (λ l. Authentic x l × Distinct (ids (x ∷ l))) (sym eq) (authentic, distinct)

      backward :
          Authentic x chain × Distinct (ids (x ∷ chain))
          → invite_chain_loop c p m (length m + 2) [] x [] ≡ ok chain
      backward (authentic, distinct) =
          loop_complete (length m + 2) [] x [] chain authentic distinct
            (All-of_All (λ k. contains {A = MemberId} [] k ≡ false) (ids (x ∷ chain)) (λ k. refl))
            (omega (
              arith,
              pigeonhole (ids chain) (HashMap.keys m) distinct.1
                  (chain_keys x chain keyed authentic),
              length-keys m,
              length-map chain (member_id c),
            ))
