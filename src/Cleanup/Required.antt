-- ===== src/Cleanup/Required.antt =====
-- Whom the clean-up keeps (`post_apply_cleanup` of common/src/board_state.rs): the loop up the
-- invitations ends, with the authors of messages and everybody above them.
use free_talk.Shared.{
  ℕ, zero, suc, ◌+◌, ◌≡◌, ◌≢◌, ◌⊎◌, ◌↔◌, inl, inr, refl, sym, ◌∙◌, subst, arith, Bool, true, false,
  not, ◌||◌, ◌&&◌, List, [], ◌∷◌, none, some, length, contains, Bool-cases, nat_eq, nat_beq_iff,
  ◌==◌, ==_refl,
}
use free_talk.Shared.HashMap
use free_talk.Shared.HashMap.{HashMap}
use free_talk.Shared.HashSet
use free_talk.Shared.HashSet.{HashSet}
use free_talk.Model.{Crypto, MemberId, AuthorizedMember, ChatBoardStateV1, ChatBoardParametersV1}
use free_talk.Member.Chain.{invited_by, owner_id, members_by_member_id}
use free_talk.Cleanup.{message_authors, author_ids, ancestor_loop, required_ids}

module _ (owner : MemberId) (m : HashMap MemberId AuthorizedMember) where
  contains-author_ids :
      (required : HashSet MemberId) (authors : List MemberId) (k : MemberId)
      → contains (author_ids owner m required authors) k ≡ (
          contains required k
          || (contains authors k && (not (k == owner) && HashMap.contains_key k m)))
  unfolding author_ids
  contains-author_ids required [] k = ground arith
  contains-author_ids required (a ∷ authors) k =
      let ih = λ (r : HashSet MemberId). contains-author_ids r authors k in
      elim (Bool-cases (a == k)) [
        | inl same ↦
            let e : a ≡ k = (nat_beq_iff a k).0 same in
            subst
              (λ j. contains (author_ids owner m required (j ∷ authors)) k ≡ (
                contains required k
                || (contains (j ∷ authors) k && (not (k == owner) && HashMap.contains_key k m))))
              (sym e)
              (ground (
                arith,
                ih required,
                ih (HashSet.insert k required),
                HashSet.contains-insert k k required,
                ==_refl k,
              ))
        | inr other ↦ ground (
          arith,
          ih required,
          ih (HashSet.insert a required),
          HashSet.contains-insert a k required,
        )
      ]

  -- The authors that are members, and everybody above them below the owner.
  pub data Needed (authors : List MemberId) : MemberId → Type 0 where
    author :
        {k : MemberId}
        → contains authors k ≡ true
        → k ≢ owner
        → HashMap.contains_key k m ≡ true
        → Needed authors k
    inviter :
        {k : MemberId} {x : AuthorizedMember}
        → Needed authors k
        → HashMap.get k m ≡ some x
        → invited_by x ≢ owner
        → Needed authors (invited_by x)

  module _ (authors : List MemberId) where
    IsSound : HashSet MemberId → List MemberId → Type 0
    IsSound required stack =
        ((k : MemberId) → contains required k ≡ true → Needed authors k)
        × ((k : MemberId) → contains stack k ≡ true → contains required k ≡ true)

    -- Whoever is required has been dealt with, or is on the stack.
    IsClosed : HashSet MemberId → List MemberId → Type 0
    IsClosed required stack =
        (k : MemberId) (x : AuthorizedMember)
        → contains required k ≡ true
        → contains stack k ≡ false
        → HashMap.get k m ≡ some x
        → invited_by x ≢ owner
        → contains required (invited_by x) ≡ true

    absent-IsClosed :
        (required : HashSet MemberId) (id : MemberId) (stack : List MemberId)
        → HashMap.get id m ≡ none
        → IsClosed required (id ∷ stack)
        → IsClosed required stack
    unfolding IsClosed
    absent-IsClosed required id stack absent closed k x r s g n = elim (Bool-cases (id == k)) [
      | inl same ↦
          let e : id ≡ k = (nat_beq_iff id k).0 same in
          absurd (subst (λ j. HashMap.get j m ≡ none → ⊥) (sym e) (λ z. cc) absent)
      | inr other ↦ closed k x r (ground arith) g n
    ]

    old-IsClosed :
        (required : HashSet MemberId) (id : MemberId) (y : AuthorizedMember) (stack : List MemberId)
        → HashMap.get id m ≡ some y
        → (not (invited_by y == owner) && not (contains required (invited_by y))) ≡ false
        → IsClosed required (id ∷ stack)
        → IsClosed required stack
    unfolding IsClosed
    old-IsClosed required id y stack found old closed k x r s g n = elim (Bool-cases (id == k)) [
      | inl same ↦
          let e : id ≡ k = (nat_beq_iff id k).0 same in
          let same_member : y ≡ x =
            same_value (sym found ∙ subst (λ j. HashMap.get j m ≡ some x) (sym e) g) in
          subst (λ z. contains required (invited_by z) ≡ true) same_member
            (ground (arith, subst (λ z. invited_by z ≢ owner) (sym same_member) n))
      | inr other ↦ closed k x r (ground arith) g n
    ]
      where
        same_value : {a b : AuthorizedMember} → some a ≡ some b → a ≡ b
        same_value h = cc

    fresh-IsClosed :
        (required : HashSet MemberId) (id : MemberId) (y : AuthorizedMember) (stack : List MemberId)
        → HashMap.get id m ≡ some y
        → IsClosed required (id ∷ stack)
        → IsClosed (HashSet.insert (invited_by y) required) (invited_by y ∷ stack)
    unfolding IsClosed
    fresh-IsClosed required id y stack found closed k x r s g n = elim (Bool-cases (id == k)) [
      | inl same ↦
          let e : id ≡ k = (nat_beq_iff id k).0 same in
          let same_member : y ≡ x =
            same_value (sym found ∙ subst (λ j. HashMap.get j m ≡ some x) (sym e) g) in
          subst (λ z. contains (HashSet.insert (invited_by y) required) (invited_by z) ≡ true)
            same_member
            (ground (
              arith,
              HashSet.contains-insert (invited_by y) (invited_by y) required,
              ==_refl (invited_by y),
            ))
      | inr other ↦
          let old : contains required k ≡ true =
            ground (arith, HashSet.contains-insert (invited_by y) k required) in
          let kept = closed k x old (ground arith) g n in
          ground (arith, HashSet.contains-insert (invited_by y) (invited_by x) required)
    ]
      where
        same_value : {a b : AuthorizedMember} → some a ≡ some b → a ≡ b
        same_value h = cc

    fresh-IsSound :
        (required : HashSet MemberId) (id : MemberId) (y : AuthorizedMember) (stack : List MemberId)
        → HashMap.get id m ≡ some y
        → invited_by y ≢ owner
        → IsSound required (id ∷ stack)
        → IsSound (HashSet.insert (invited_by y) required) (invited_by y ∷ stack)
    unfolding IsSound
    fresh-IsSound required id y stack found n sound = (
      (λ k h. elim (Bool-cases (invited_by y == k)) [
        | inl same ↦
            subst (Needed authors) ((nat_beq_iff (invited_by y) k).0 same)
              (Needed.inviter (sound.0 id (sound.1 id (ground (arith, ==_refl id)))) found n)
        | inr other ↦ sound.0 k (ground (arith, HashSet.contains-insert (invited_by y) k required))
      ]),
      λ k h. ground (arith, HashSet.contains-insert (invited_by y) k required, sound.1 k),
    )

    abbrev is_fresh : HashSet MemberId → AuthorizedMember → Bool
    is_fresh required y = not (invited_by y == owner) && not (contains required (invited_by y))

    -- A round of the loop that ends well.
    loop_step :
        (fuel : ℕ) (required r : HashSet MemberId) (id : MemberId) (stack : List MemberId)
        → ancestor_loop owner m (suc fuel) required (id ∷ stack) ≡ some r
        → ((HashMap.get id m ≡ none) × (ancestor_loop owner m fuel required stack ≡ some r))
          ⊎ ((y : AuthorizedMember) × (HashMap.get id m ≡ some y)
              × (((is_fresh required y ≡ true)
                    × (ancestor_loop owner m fuel
                          (HashSet.insert (invited_by y) required)
                          (invited_by y ∷ stack)
                        ≡ some r))
                  ⊎ ((is_fresh required y ≡ false)
                      × (ancestor_loop owner m fuel required stack ≡ some r))))
    unfolding ancestor_loop
    loop_step fuel required r id stack h = ground arith

    loop-contains :
        (fuel : ℕ) (required r : HashSet MemberId) (stack : List MemberId) (k : MemberId)
        → contains required k ≡ true
        → ancestor_loop owner m fuel required stack ≡ some r
        → contains r k ≡ true
    unfolding ancestor_loop
    loop-contains fuel required r [] k has h = cc
    loop-contains zero required r (id ∷ stack) k has h = cc
    loop-contains (suc fuel) required r (id ∷ stack) k has h =
        elim (loop_step fuel required r id stack h) [
          | inl (absent, rest) ↦ loop-contains fuel required r stack k has rest
          | inr (y, found, inl (new, rest)) ↦
              loop-contains fuel (HashSet.insert (invited_by y) required) r (invited_by y ∷ stack) k
                (ground (arith, HashSet.contains-insert (invited_by y) k required)) rest
          | inr (y, found, inr (old, rest)) ↦ loop-contains fuel required r stack k has rest
        ]

    rest-IsSound :
        (required : HashSet MemberId) (id : MemberId) (stack : List MemberId)
        → IsSound required (id ∷ stack)
        → IsSound required stack
    unfolding IsSound
    rest-IsSound required id stack sound = (sound.0, λ k q. sound.1 k (ground arith))

    loop_exact :
        (fuel : ℕ) (required r : HashSet MemberId) (stack : List MemberId)
        → IsSound required stack
        → IsClosed required stack
        → ancestor_loop owner m fuel required stack ≡ some r
        → IsSound r [] × IsClosed r []
    unfolding ancestor_loop
    loop_exact fuel required r [] sound closed h =
        let e : required ≡ r = cc in subst (λ z. IsSound z [] × IsClosed z []) e (sound, closed)
    loop_exact zero required r (id ∷ stack) sound closed h = cc
    loop_exact (suc fuel) required r (id ∷ stack) sound closed h =
        elim (loop_step fuel required r id stack h) [
          | inl (absent, rest) ↦
              loop_exact fuel required r stack (rest-IsSound required id stack sound)
                (absent-IsClosed required id stack absent closed) rest
          | inr (y, found, inl (new, rest)) ↦
              loop_exact fuel (HashSet.insert (invited_by y) required) r (invited_by y ∷ stack)
                (fresh-IsSound required id y stack found (ground arith) sound)
                (fresh-IsClosed required id y stack found closed) rest
          | inr (y, found, inr (old, rest)) ↦
              loop_exact fuel required r stack (rest-IsSound required id stack sound)
                (old-IsClosed required id y stack found old closed) rest
        ]

    Needed-contains :
        (r : HashSet MemberId)
        → ((k : MemberId)
            → contains authors k ≡ true
            → k ≢ owner
            → HashMap.contains_key k m ≡ true
            → contains r k ≡ true)
        → IsClosed r []
        → (k : MemberId) → Needed authors k
        → contains r k ≡ true
    unfolding IsClosed
    Needed-contains r start closed k (Needed.author a n i) = start k a n i
    Needed-contains r start closed k (Needed.inviter {k = j} {x = x} d g n) =
        closed j x (Needed-contains r start closed j d) refl g n

-- The clean-up requires exactly the members who wrote a message that is still there, and everybody
-- above them below the owner.
pub required_ids_iff :
    (c : Crypto) (self : ChatBoardStateV1) (p : ChatBoardParametersV1) (r : HashSet MemberId)
    (k : MemberId)
    → required_ids c self p ≡ some r
    → (contains r k ≡ true)
      ↔ Needed (owner_id c p) (members_by_member_id c self.members) (message_authors self) k
unfolding required_ids IsSound IsClosed
required_ids_iff c self p r k h = (q.0.0 k, Needed-contains owner m authors r started q.1 k)
  where
    owner : MemberId
    owner = owner_id c p

    m : HashMap MemberId AuthorizedMember
    m = members_by_member_id c self.members

    authors : List MemberId
    authors = message_authors self

    start : HashSet MemberId
    start = author_ids owner m [] authors

    q : IsSound owner m authors r [] × IsClosed owner m authors r []
    q =
        loop_exact owner m authors (length start + length m) start r start
          (
            (λ j i.
                let e = contains-author_ids owner m [] authors j in
                Needed.author (ground (arith, e)) (ground (arith, e)) (ground (arith, e))),
            (λ j i. i),
          )
          (λ j x i n. cc) h

    started :
        (j : MemberId)
        → contains authors j ≡ true
        → j ≢ owner
        → HashMap.contains_key j m ≡ true
        → contains r j ≡ true
    started j a n i =
        loop-contains owner m authors (length start + length m) start r start j
          (ground (arith, contains-author_ids owner m [] authors j)) h
