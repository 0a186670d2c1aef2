-- ===== src/Member/DownstreamEnds.antt =====
-- When `get_downstream_members` of common/src/board_state/member.rs ends: always, if invitations make
-- no circle, and never from a member who invited himself.
use free_talk.Shared.{
  ℕ, zero, suc, ◌+◌, ◌*◌, ◌≤◌, ◌<◌, ◌≡◌, inl, inr, refl, sym, subst, arith, true, false, List, [],
  ◌∷◌, none, some, length, contains, All, Bool-cases, nat_eq, ==_refl, nat_beq_iff, ◌==◌,
}
use free_talk.Shared.HashSet
use free_talk.Shared.HashSet.{HashSet}
use free_talk.Model.{Crypto, MemberId, AuthorizedMember, member_id}
use free_talk.Member.Chain.{invited_by}
use free_talk.Member.Downstream.{visit, downstream_loop, get_downstream_members}
use free_talk.Member.DownstreamLaws.{invites, visit-contains}

-- The rounds that the loop may need below a member `rank` steps above the lowest: with `n` members,
-- one and `n` times those of the next rank.
abbrev pub rounds : ℕ → ℕ → ℕ
rounds n zero = 1
rounds n (suc rank) = suc n * rounds n rank

module _ (c : Crypto) (rank : MemberId → ℕ) (members : List AuthorizedMember) where
  -- Invitations go downwards, so they make no circle.
  abbrev pub Acyclic : Type 0
  Acyclic = All (λ m. rank (member_id c m) < rank (invited_by m)) members

  stack_rounds : ℕ → List MemberId → ℕ
  stack_rounds n [] = 0
  stack_rounds n (x ∷ s) = rounds n (rank x) + stack_rounds n s

  rounds_pos : (n r : ℕ) → 1 ≤ rounds n r
  rounds_pos n zero = omega arith
  rounds_pos n (suc r) = grind (arith, rounds_pos n r)

  rounds_mono : (n r q : ℕ) → r ≤ q → rounds n r ≤ rounds n q
  rounds_mono n zero q h = rounds_pos n q
  rounds_mono n (suc r) zero h = absurd (omega arith)
  rounds_mono n (suc r) (suc q) h = grind (arith, rounds_mono n r q)

  visit_invited :
      (m : AuthorizedMember) (ms : List AuthorizedMember) (x : MemberId) (d : HashSet MemberId)
      (s : List MemberId)
      → (invited_by m == x) ≡ true
      → visit c (m ∷ ms) x d s ≡ visit c ms x (HashSet.insert (member_id c m) d) (member_id c m ∷ s)
  unfolding visit
  visit_invited m ms x d s h = rw h

  visit_other :
      (m : AuthorizedMember) (ms : List AuthorizedMember) (x : MemberId) (d : HashSet MemberId)
      (s : List MemberId)
      → (invited_by m == x) ≡ false
      → visit c (m ∷ ms) x d s ≡ visit c ms x d s
  unfolding visit
  visit_other m ms x d s h = rw h

  visit_nobody :
      (x : MemberId) (d : HashSet MemberId) (s : List MemberId) → visit c [] x d s ≡ (d, s)
  unfolding visit
  visit_nobody x d s = refl

  visit-rounds :
      (ms : List AuthorizedMember) (n x q : ℕ) (d : HashSet MemberId) (s : List MemberId)
      → All (λ m. rank (member_id c m) < rank (invited_by m)) ms
      → ((k : MemberId) → rank k < rank x → rounds n (rank k) ≤ q)
      → stack_rounds n (visit c ms x d s).1 ≤ length ms * q + stack_rounds n s
  unfolding stack_rounds
  visit-rounds [] n x q d s h le = rw (visit_nobody x d s) (omega arith)
  visit-rounds (m ∷ ms) n x q d s h le = elim (Bool-cases (invited_by m == x)) [
    | inl invited ↦
        let e = (nat_beq_iff (invited_by m) x).0 invited in
        rw (visit_invited m ms x d s invited) (
          omega (
            arith,
            visit-rounds ms n x q (HashSet.insert (member_id c m) d) (member_id c m ∷ s) h.1 le,
            le (member_id c m) (subst (λ j. rank (member_id c m) < rank j) e h.0),
          ))
    | inr other ↦
        rw (visit_other m ms x d s other) (omega (arith, visit-rounds ms n x q d s h.1 le))
  ]

  -- What a round adds is less than what it takes.
  visit_falls :
      (x : MemberId) (d : HashSet MemberId) (s : List MemberId) (r : ℕ)
      → Acyclic
      → rank x ≡ r
      → stack_rounds (length members) (visit c members x d s).1 + 1
        ≤ rounds (length members) r + stack_rounds (length members) s
  visit_falls x d s zero acyclic e =
      omega (
        arith,
        visit-rounds members (length members) x 0 d s acyclic (λ k lt. absurd (omega arith)),
      )
  visit_falls x d s (suc r) acyclic e = omega (
    arith,
    rounds_pos (length members) r,
    visit-rounds members (length members) x (rounds (length members) r) d s acyclic
        (λ k lt. rounds_mono (length members) (rank k) r (omega arith)),
  )

  loop-total :
      (fuel : ℕ) (d : HashSet MemberId) (s : List MemberId)
      → Acyclic
      → stack_rounds (length members) s ≤ fuel
      → (r : HashSet MemberId) × (downstream_loop c members fuel d s ≡ some r)
  unfolding downstream_loop stack_rounds
  loop-total fuel d [] acyclic h = (d, refl)
  loop-total zero d (x ∷ s) acyclic h = absurd (omega (arith, rounds_pos (length members) (rank x)))
  loop-total (suc fuel) d (x ∷ s) acyclic h =
      loop-total fuel (visit c members x d s).0 (visit c members x d s).1 acyclic
        (omega (arith, visit_falls x d s (rank x) acyclic refl))

  -- With no circle of invitations and fuel for the member's rank, the loop ends.
  pub get_downstream_members_total :
      (fuel : ℕ) (root : MemberId)
      → Acyclic
      → rounds (length members) (rank root) ≤ fuel
      → (r : HashSet MemberId) × (get_downstream_members c members fuel root ≡ some r)
  unfolding get_downstream_members stack_rounds
  get_downstream_members_total fuel root acyclic h =
      loop-total fuel [] (root ∷ []) acyclic (omega arith)

module _ (c : Crypto) (members : List AuthorizedMember) (root : MemberId) where
  loop-circle :
      (fuel : ℕ) (d : HashSet MemberId) (s : List MemberId)
      → invites c members root root ≡ true
      → contains s root ≡ true
      → downstream_loop c members fuel d s ≡ none
  unfolding downstream_loop
  loop-circle fuel d [] self h = cc
  loop-circle zero d (x ∷ s) self h = refl
  loop-circle (suc fuel) d (x ∷ s) self h =
      loop-circle fuel (visit c members x d s).0 (visit c members x d s).1 self
        (elim (Bool-cases (x == root)) [
          | inl same ↦
              let e = (nat_beq_iff x root).0 same in
              ground (
                arith,
                visit-contains c members x d s root,
                subst (λ i. invites c members i root ≡ true) (sym e) self,
              )
          | inr other ↦ ground (arith, visit-contains c members x d s root)
        ])

  -- Below a member who is his own inviter the loop does not end, whatever the fuel is.
  get_downstream_members_circle :
      (fuel : ℕ)
      → invites c members root root ≡ true
      → get_downstream_members c members fuel root ≡ none
  unfolding get_downstream_members
  get_downstream_members_circle fuel self =
      loop-circle fuel [] (root ∷ []) self (ground (arith, ==_refl root))
