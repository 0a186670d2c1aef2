-- ===== src/Member/DownstreamLaws.antt =====
-- The members below a member (`get_downstream_members` of common/src/board_state/member.rs): the
-- set that the loop computes is closed under invitation and holds nobody else.
use free_talk.Shared.{
  ℕ, zero, suc, ◌≡◌, ◌⊎◌, ◌↔◌, inl, inr, refl, sym, ◌∙◌, subst, arith, Bool, true, false, ◌||◌,
  ◌&&◌, List, [], ◌∷◌, some, contains, any, Bool-cases, nat_eq, ==_refl, nat_beq_iff, ◌==◌,
}
use free_talk.Shared.HashSet
use free_talk.Shared.HashSet.{HashSet}
use free_talk.Model.{Crypto, MemberId, AuthorizedMember, member_id}
use free_talk.Member.Chain.{invited_by}
use free_talk.Member.Downstream.{visit, downstream_loop, get_downstream_members}

module _ (c : Crypto) where
  -- `k` is a member whom `current` invited.
  abbrev pub invites : List AuthorizedMember → MemberId → MemberId → Bool
  invites members current k = any (λ m. invited_by m == current && member_id c m == k) members

  -- The round adds to the set and to the stack those whom `current` invited.
  pub visit-contains :
      (members : List AuthorizedMember) (current : MemberId) (d : HashSet MemberId)
      (s : List MemberId) (k : MemberId)
      → (contains (visit c members current d s).0 k ≡ (contains d k || invites members current k))
        × (contains (visit c members current d s).1 k ≡ (contains s k || invites members current k))
  unfolding visit
  visit-contains [] current d s k = ground arith
  visit-contains (m ∷ members) current d s k = elim (Bool-cases (invited_by m == current)) [
    | inl invited ↦ rw invited (
        ground (
          arith,
          visit-contains members current (HashSet.insert (member_id c m) d) (member_id c m ∷ s) k,
          HashSet.contains-insert (member_id c m) k d,
        ))
    | inr other ↦ rw other (ground (arith, visit-contains members current d s k))
  ]

  -- Those below `root`: whom it invited, whom these invited, and so on.
  pub data Below (members : List AuthorizedMember) (root : MemberId) : MemberId → Type 0 where
    direct : {k : MemberId} → invites members root k ≡ true → Below members root k
    further :
        {j k : MemberId} → Below members root j → invites members j k ≡ true → Below members root k

  module _ (members : List AuthorizedMember) (root : MemberId) where
    -- Whoever was reached has been dealt with, or is on the stack.
    IsClosed : HashSet MemberId → List MemberId → Type 0
    IsClosed d s =
        (j k : MemberId)
        → invites members j k ≡ true
        → (root == j || contains d j) ≡ true
        → (contains s j || contains d k) ≡ true

    visit-IsClosed :
        (x : MemberId) (d : HashSet MemberId) (s : List MemberId)
        → IsClosed d (x ∷ s)
        → IsClosed (visit c members x d s).0 (visit c members x d s).1
    unfolding IsClosed
    visit-IsClosed x d s closed j k inv reached = elim (Bool-cases (x == j)) [
      | inl same ↦
          let e = (nat_beq_iff x j).0 same in
          ground (
            arith,
            visit-contains members x d s k,
            subst (λ i. invites members i k ≡ true) (sym e) inv,
          )
      | inr other ↦
          ground
            (arith, visit-contains members x d s j, visit-contains members x d s k, closed j k inv)
    ]

    -- Nobody is reached who is not below the root.
    IsSound : HashSet MemberId → List MemberId → Type 0
    IsSound d s =
        ((k : MemberId) → contains d k ≡ true → Below members root k)
        × ((k : MemberId) → contains s k ≡ true → (root ≡ k) ⊎ Below members root k)

    reached_by :
        (x k : MemberId)
        → (root ≡ x) ⊎ Below members root x
        → invites members x k ≡ true
        → Below members root k
    reached_by x k (inl e) i = Below.direct (subst (λ j. invites members j k ≡ true) (sym e) i)
    reached_by x k (inr b) i = Below.further b i

    or_cases : (a b : Bool) → (a || b) ≡ true → (a ≡ true) ⊎ (b ≡ true)
    or_cases true b h = inl refl
    or_cases false b h = inr h

    visit-IsSound :
        (x : MemberId) (d : HashSet MemberId) (s : List MemberId)
        → IsSound d (x ∷ s)
        → IsSound (visit c members x d s).0 (visit c members x d s).1
    unfolding IsSound
    visit-IsSound x d s sound = (
      λ k h. found k (or_cases _ _ (sym (visit-contains members x d s k).0 ∙ h)),
      λ k h. stacked k (or_cases _ _ (sym (visit-contains members x d s k).1 ∙ h)),
    )
      where
        at : (root ≡ x) ⊎ Below members root x
        at = sound.1 x (ground (arith, ==_refl x))

        found :
            (k : MemberId)
            → (contains d k ≡ true) ⊎ (invites members x k ≡ true)
            → Below members root k
        found k (inl old) = sound.0 k old
        found k (inr new) = reached_by x k at new

        stacked :
            (k : MemberId)
            → (contains s k ≡ true) ⊎ (invites members x k ≡ true)
            → (root ≡ k) ⊎ Below members root k
        stacked k (inl old) = sound.1 k (ground arith)
        stacked k (inr new) = inr (reached_by x k at new)

    loop_exact :
        (fuel : ℕ) (d : HashSet MemberId) (s : List MemberId) (r : HashSet MemberId)
        → IsClosed d s
        → IsSound d s
        → downstream_loop c members fuel d s ≡ some r
        → IsClosed r [] × IsSound r []
    unfolding downstream_loop
    loop_exact fuel d [] r closed sound h =
        let e : d ≡ r = cc in subst (λ z. IsClosed z [] × IsSound z []) e (closed, sound)
    loop_exact zero d (x ∷ s) r closed sound h = cc
    loop_exact (suc fuel) d (x ∷ s) r closed sound h =
        loop_exact fuel (visit c members x d s).0 (visit c members x d s).1 r
          (visit-IsClosed x d s closed) (visit-IsSound x d s sound) h

    Below-contains :
        (r : HashSet MemberId) (k : MemberId)
        → IsClosed r []
        → Below members root k
        → contains r k ≡ true
    unfolding IsClosed
    Below-contains r k closed (Below.direct i) = closed root k i (ground (arith, ==_refl root))
    Below-contains r k closed (Below.further {j = j} b i) =
        closed j k i (ground (arith, Below-contains r j closed b))

    -- The set holds exactly those below the member.
    pub get_downstream_members_iff :
        (fuel : ℕ) (r : HashSet MemberId) (k : MemberId)
        → get_downstream_members c members fuel root ≡ some r
        → (contains r k ≡ true) ↔ Below members root k
    unfolding get_downstream_members IsClosed IsSound
    get_downstream_members_iff fuel r k h = (q.1.0 k, Below-contains r k q.0)
      where
        q : IsClosed r [] × IsSound r []
        q =
            loop_exact fuel [] (root ∷ []) r (λ j i inv reached. ground arith)
              ((λ i e. cc), (λ i e. inl ((nat_beq_iff root i).0 (ground arith)))) h
