-- ===== src/Cleanup/Ends.antt =====
-- The clean-up ends (`post_apply_cleanup` of common/src/board_state.rs): each inviter goes on the
-- stack once.
use free_talk.Shared.{
  ℕ, zero, suc, ◌+◌, ◌≤◌, ◌<◌, ◌≡◌, ◌≢◌, ◌⊎◌, inl, inr, refl, arith, true, false, not, ◌&&◌, List,
  [], ◌∷◌, Option, none, some, if◌then◌else◌, length, contains, Bool-cases, nat_eq, ◌==◌, ==_refl,
}
use free_talk.Shared.HashMap
use free_talk.Shared.HashMap.{HashMap}
use free_talk.Shared.HashSet
use free_talk.Shared.HashSet.{HashSet}
use free_talk.Model.{Crypto, MemberId, AuthorizedMember, ChatBoardStateV1, ChatBoardParametersV1}
use free_talk.Member.Chain.{invited_by, owner_id, members_by_member_id}
use free_talk.Cleanup.{message_authors, author_ids, ancestor_loop, required_ids, post_apply_cleanup}

-- How many entries have an inviter outside the set.
abbrev open_entries : HashSet MemberId → HashMap MemberId AuthorizedMember → ℕ
open_entries required [] = 0
open_entries required ((k, x) ∷ m) =
    (if contains required (invited_by x) then 0 else 1) + open_entries required m

open_entries_bound :
    (required : HashSet MemberId) (m : HashMap MemberId AuthorizedMember)
    → open_entries required m ≤ length m
open_entries_bound required [] = omega arith
open_entries_bound required ((k, x) ∷ m) = ground (arith, open_entries_bound required m)

open_entries-insert :
    (required : HashSet MemberId) (j : MemberId) (m : HashMap MemberId AuthorizedMember)
    → open_entries (HashSet.insert j required) m ≤ open_entries required m
open_entries-insert required j [] = omega arith
open_entries-insert required j ((k, x) ∷ m) =
    let ih = open_entries-insert required j m in
    let e = HashSet.contains-insert j (invited_by x) required in
    elim (Bool-cases (contains required (invited_by x))) [
      | inl old ↦
          let new : contains (HashSet.insert j required) (invited_by x) ≡ true =
            ground (arith, e) in
          rw (old, new) (omega (arith, ih))
      | inr fresh ↦ elim (Bool-cases (contains (HashSet.insert j required) (invited_by x))) [
        | inl now ↦ rw (fresh, now) (omega (arith, ih))
        | inr still ↦ rw (fresh, still) (omega (arith, ih))
      ]
    ]

open_entries_falls :
    (required : HashSet MemberId) (id : MemberId) (y : AuthorizedMember)
    (m : HashMap MemberId AuthorizedMember)
    → HashMap.get id m ≡ some y
    → contains required (invited_by y) ≡ false
    → open_entries (HashSet.insert (invited_by y) required) m < open_entries required m
open_entries_falls required id y [] found fresh = cc
open_entries_falls required id y ((k, x) ∷ m) found fresh = elim (Bool-cases (k == id)) [
  | inl here ↦
      let same : x ≡ y = ground arith in
      let now : contains (HashSet.insert (invited_by y) required) (invited_by x) ≡ true = ground (
        arith,
        HashSet.contains-insert (invited_by y) (invited_by x) required,
        ==_refl (invited_by y),
      ) in
      let before : contains required (invited_by x) ≡ false = ground arith in
      rw (now, before) (omega (arith, open_entries-insert required (invited_by y) m))
  | inr later ↦
      let ih = open_entries_falls required id y m (ground arith) fresh in
      let e = HashSet.contains-insert (invited_by y) (invited_by x) required in
      elim (Bool-cases (contains required (invited_by x))) [
        | inl old ↦
            let new : contains (HashSet.insert (invited_by y) required) (invited_by x) ≡ true =
              ground (arith, e) in
            rw (old, new) (omega (arith, ih))
        | inr out ↦
            elim (Bool-cases (contains (HashSet.insert (invited_by y) required) (invited_by x))) [
              | inl now ↦ rw (out, now) (omega (arith, ih))
              | inr still ↦ rw (out, still) (omega (arith, ih))
            ]
      ]
]

module _ (owner : MemberId) (m : HashMap MemberId AuthorizedMember) where
  -- A loop that uses up its fuel has made another round.
  starved_step :
      (fuel : ℕ) (required : HashSet MemberId) (id : MemberId) (stack : List MemberId)
      → ancestor_loop owner m (suc fuel) required (id ∷ stack) ≡ none
      → (ancestor_loop owner m fuel required stack ≡ none)
        ⊎ ((y : AuthorizedMember) × (HashMap.get id m ≡ some y)
            × (contains required (invited_by y) ≡ false)
            × (ancestor_loop owner m fuel
                  (HashSet.insert (invited_by y) required)
                  (invited_by y ∷ stack)
                ≡ none))
  unfolding ancestor_loop
  starved_step fuel required id stack h = at (HashMap.get id m) refl
    where
      at :
          (v : Option AuthorizedMember)
          → HashMap.get id m ≡ v
          → (ancestor_loop owner m fuel required stack ≡ none)
            ⊎ ((y : AuthorizedMember) × (HashMap.get id m ≡ some y)
                × (contains required (invited_by y) ≡ false)
                × (ancestor_loop owner m fuel
                      (HashSet.insert (invited_by y) required)
                      (invited_by y ∷ stack)
                    ≡ none))
      at none e = inl (rw (e, ancestor_loop) at h)
      at (some y) e =
          elim (Bool-cases
            (not (invited_by y == owner) && not (contains required (invited_by y)))) [
              | inl new ↦ inr (y, e, ground arith, rw (e, new, ancestor_loop) at h)
              | inr old ↦ inl (rw (e, old, ancestor_loop) at h)
            ]

  loop_total :
      (fuel : ℕ) (required : HashSet MemberId) (stack : List MemberId)
      → length stack + open_entries required m ≤ fuel
      → ancestor_loop owner m fuel required stack ≢ none
  unfolding ancestor_loop
  loop_total fuel required [] enough h = cc
  loop_total zero required (id ∷ stack) enough h = omega arith
  loop_total (suc fuel) required (id ∷ stack) enough h =
      elim (starved_step fuel required id stack h) [
        | inl rest ↦ loop_total fuel required stack (omega arith) rest
        | inr (y, found, fresh, rest) ↦
            loop_total fuel (HashSet.insert (invited_by y) required) (invited_by y ∷ stack)
              (omega (arith, open_entries_falls required id y m found fresh)) rest
      ]

-- The clean-up always ends.
post_apply_cleanup_total :
    (c : Crypto) (self : ChatBoardStateV1) (p : ChatBoardParametersV1)
    → post_apply_cleanup c self p ≢ none
unfolding post_apply_cleanup required_ids
post_apply_cleanup_total c self p h =
    loop_total owner m (length start + length m) start start
      (omega (arith, open_entries_bound start m)) (ground arith)
  where
    owner : MemberId
    owner = owner_id c p

    m : HashMap MemberId AuthorizedMember
    m = members_by_member_id c self.members

    start : HashSet MemberId
    start = author_ids owner m [] (message_authors self)
