-- ===== src/Member/Removal.antt =====
-- Whom a ban removes from the members (`remove_banned_members` of common/src/board_state/member.rs).
use free_talk.Shared.{
  ℕ, ◌≡◌, ◌⊎◌, ◌↔◌, inl, inr, sym, ◌∙◌, subst, arith, Bool, true, not, ◌||◌, ◌&&◌, List, [], ◌∷◌,
  some, ok, contains, map, retain, contains-retain, Bool-cases, nat_eq, nat_beq_iff, ◌==◌,
}
use free_talk.Shared.HashSet
use free_talk.Shared.HashSet.{HashSet}
use free_talk.Shared.Order.{sort_by_key, contains-sort_by_key}
use free_talk.Model.{
  Crypto, MemberId, AuthorizedMember, AuthorizedUserBan, ChatBoardStateV1, member_id,
}
use free_talk.Member.Downstream.{
  banned_user, get_downstream_members, banned_ids, remove_banned_members,
}
use free_talk.Member.DownstreamLaws.{invites, Below, get_downstream_members_iff}
use free_talk.Member.Apply.{settle}

module _ (c : Crypto) (members : List AuthorizedMember) where
  -- Some ban names `k`, or somebody above `k`.
  abbrev pub Banned : List AuthorizedUserBan → MemberId → Type 0
  Banned [] k = ⊥
  Banned (b ∷ bans) k = ((banned_user b ≡ k) ⊎ Below c members (banned_user b) k) ⊎ Banned bans k

  or_iff : (a b : Bool) → ((a || b) ≡ true) ↔ ((a ≡ true) ⊎ (b ≡ true))
  or_iff a b = ((λ h. ground arith), (λ h. ground arith))

  banned_ids_step :
      (fuel : ℕ) (b : AuthorizedUserBan) (bans : List AuthorizedUserBan) (ids r : HashSet MemberId)
      → banned_ids c members fuel ids (b ∷ bans) ≡ some r
      → (ds : HashSet MemberId) × (get_downstream_members c members fuel (banned_user b) ≡ some ds)
        × (banned_ids c members fuel (HashSet.extend (HashSet.insert (banned_user b) ids) ds) bans
            ≡ some r)
  unfolding banned_ids
  banned_ids_step fuel b bans ids r h = ground arith

  -- The identifiers of one ban: the banned member's and those below it.
  named_iff :
      (u k : MemberId) (ids ds : HashSet MemberId)
      → ((contains ds k ≡ true) ↔ Below c members u k)
      → (contains (HashSet.extend (HashSet.insert u ids) ds) k ≡ true)
        ↔ ((contains ids k ≡ true) ⊎ ((u ≡ k) ⊎ Below c members u k))
  named_iff u k ids ds below = (forward, backward)
    where
      eq :
          contains (HashSet.extend (HashSet.insert u ids) ds) k
          ≡ ((u == k || contains ids k) || contains ds k)
      eq = ground (
        arith,
        HashSet.contains-extend (HashSet.insert u ids) ds k,
        HashSet.contains-insert u k ids,
      )

      forward :
          contains (HashSet.extend (HashSet.insert u ids) ds) k ≡ true
          → (contains ids k ≡ true) ⊎ ((u ≡ k) ⊎ Below c members u k)
      forward h = elim ((or_iff (u == k || contains ids k) (contains ds k)).0 (sym eq ∙ h)) [
        | inr d ↦ inr (inr (below.0 d))
        | inl e ↦ elim ((or_iff (u == k) (contains ids k)).0 e) [
          | inl same ↦ inr (inl ((nat_beq_iff u k).0 same))
          | inr old ↦ inl old
        ]
      ]

      backward :
          (contains ids k ≡ true) ⊎ ((u ≡ k) ⊎ Below c members u k)
          → contains (HashSet.extend (HashSet.insert u ids) ds) k ≡ true
      backward (inl old) = ground (arith, eq)
      backward (inr (inl same)) = ground (arith, eq)
      backward (inr (inr b)) = ground (arith, eq, below.1 b)

  -- The set that the loop over the bans builds: what it had, and whom the bans remove.
  pub banned_ids_iff :
      (fuel : ℕ) (bans : List AuthorizedUserBan) (ids r : HashSet MemberId) (k : MemberId)
      → banned_ids c members fuel ids bans ≡ some r
      → (contains r k ≡ true) ↔ ((contains ids k ≡ true) ⊎ Banned bans k)
  unfolding banned_ids
  banned_ids_iff fuel [] ids r k h =
      let e : ids ≡ r = cc in
      (
        (λ x. inl (subst (λ z. contains z k ≡ true) (sym e) x)),
        λ x. elim x [ inl y ↦ subst (λ z. contains z k ≡ true) e y | inr n ↦ absurd n ],
      )
  banned_ids_iff fuel (b ∷ bans) ids r k h =
      let (ds, got, rest) = banned_ids_step fuel b bans ids r h in
      let ih =
        banned_ids_iff fuel bans (HashSet.extend (HashSet.insert (banned_user b) ids) ds) r k
          rest in
      let named =
        named_iff (banned_user b) k ids ds
          (get_downstream_members_iff c members (banned_user b) fuel ds k got) in
      regroup ih named
    where
      regroup :
          {Z : Type 0}
          → (contains r k ≡ true) ↔ (Z ⊎ Banned bans k)
          → Z
            ↔ ((contains ids k ≡ true) ⊎ ((banned_user b ≡ k) ⊎ Below c members (banned_user b) k))
          → (contains r k ≡ true) ↔ ((contains ids k ≡ true) ⊎ Banned (b ∷ bans) k)
      regroup f g = (
        (λ x. elim (f.0 x) [
          | inl z ↦ elim (g.0 z) [ inl old ↦ inl old | inr here ↦ inr (inl here) ]
          | inr later ↦ inr (inr later)
        ]),
        λ y. elim y [
          | inl old ↦ f.1 (inl (g.1 (inl old)))
          | inr (inl here) ↦ f.1 (inl (g.1 (inr here)))
          | inr (inr later) ↦ f.1 (inr later)
        ],
      )

  pub settle_step :
      (fuel : ℕ) (state : ChatBoardStateV1) (r : List AuthorizedMember)
      → settle c members fuel state ≡ ok r
      → (ids : HashSet MemberId) × (banned_ids c members fuel [] state.bans ≡ some ids)
        × (r ≡ sort_by_key (member_id c) (retain (λ m. not (contains ids (member_id c m))) members))
  unfolding settle remove_banned_members
  settle_step fuel state r h = ground arith

  -- The members that stay are those whom no ban names and above whom no ban names anybody.
  pub settle_iff :
      (fuel : ℕ) (state : ChatBoardStateV1) (r : List AuthorizedMember) (k : MemberId)
      → settle c members fuel state ≡ ok r
      → (contains (map (member_id c) r) k ≡ true)
        ↔ ((contains (map (member_id c) members) k ≡ true) × ¬ Banned state.bans k)
  settle_iff fuel state r k h =
      let (ids, built, eq) = settle_step fuel state r h in
      let removed = banned_ids_iff fuel state.bans [] ids k built in
      let kept =
        contains-sort_by_key (member_id c)
          (retain (λ m. not (contains ids (member_id c m))) members) k
        ∙ contains-retain (member_id c) (λ j. not (contains ids j)) members k in
      let kept_r =
        subst
          (λ z.
            contains (map (member_id c) z) k
            ≡ (contains (map (member_id c) members) k && not (contains ids k)))
          (sym eq) kept in
      (
        (λ x. (ground arith, λ b. ground (arith, removed.1 (inr b)))),
        λ y. elim (Bool-cases (contains ids k)) [
          | inl gone ↦ elim (removed.0 gone) [ inl n ↦ ground arith | inr b ↦ absurd (y.1 b) ]
          | inr stays ↦ ground arith
        ],
      )

  -- Whom a ban removes, it removes with those that he invited.
  pub Banned-down :
      (bans : List AuthorizedUserBan) (j k : MemberId)
      → invites c members j k ≡ true
      → Banned bans j
      → Banned bans k
  Banned-down (b ∷ bans) j k i (inl (inl same)) =
      inl (inr (Below.direct (subst (λ x. invites c members x k ≡ true) (sym same) i)))
  Banned-down (b ∷ bans) j k i (inl (inr below)) = inl (inr (Below.further below i))
  Banned-down (b ∷ bans) j k i (inr later) = inr (Banned-down bans j k i later)
  Banned-down [] j k i n = absurd n
