-- ===== src/Cleanup/Keeps.antt =====
-- What the clean-up leaves (`post_apply_cleanup` of common/src/board_state.rs).
use free_talk.Shared.{
  ◌≡◌, ◌≢◌, ◌↔◌, inl, inr, refl, sym, ◌∙◌, subst, arith, true, false, ◌&&◌, List, [], ◌∷◌, Option,
  none, some, ok, contains, contains-retain, map, retain, All, Distinct, Bool-cases, nat_eq,
  nat_beq_iff, ◌==◌,
}
use free_talk.Shared.HashSet.{HashSet}
use free_talk.Shared.Dedup.{by_id}
use free_talk.Shared.Order.{
  Ascending, Distinct-of_Ascending, sort_by_key-Ascending, contains-sort_by_key,
}
use free_talk.Shared.Lookup.{find_id, get-by_id, contains_of_find_id, retain-Distinct}
use free_talk.Model.{
  Crypto, MemberId, AuthorizedMember, ChatBoardStateV1, ChatBoardParametersV1, member_id,
}
use free_talk.Member.Chain.{invited_by, owner_id, members_by_member_id, verify}
use free_talk.Member.DownstreamLaws.{invites}
use free_talk.Member.Verify.{Admitted, verify_iff}
use free_talk.Member.Keeps.{Admitted-rest}
use free_talk.Cleanup.{message_authors, required_ids, prune, post_apply_cleanup}
use free_talk.Cleanup.Required.{Needed, required_ids_iff}

none_not : {A : Type 0} {a : A} → none ≡ some a → ⊥
none_not h = cc

same : {A : Type 0} {a b : A} → some a ≡ some b → a ≡ b
same h = cc

module _ (c : Crypto) (p : ChatBoardParametersV1) where
  abbrev ids : List AuthorizedMember → List MemberId
  ids l = map (member_id c) l

  -- Somebody whom `j` invited is found with `j` as inviter.
  invites-find_id :
      (l : List AuthorizedMember) (j k : MemberId)
      → Distinct (ids l)
      → invites c l j k ≡ true
      → (x : AuthorizedMember) × (find_id (member_id c) k l ≡ some x) × (invited_by x ≡ j)
  invites-find_id [] j k d h = cc
  invites-find_id (y ∷ l) j k d h = elim (Bool-cases (member_id c y == k)) [
    | inl here ↦
        let e : member_id c y ≡ k = (nat_beq_iff (member_id c y) k).0 here in
        elim (Bool-cases (invited_by y == j)) [
          | inl by ↦ (y, ground (arith, here), ground arith)
          | inr other ↦
              let (x, found, inviter) = invites-find_id l j k d.1 (ground arith) in
              absurd (
                ground (
                  arith,
                  contains_of_find_id (member_id c) k x l found,
                  subst (λ i. contains (ids l) i ≡ false) e d.0,
                ))
        ]
    | inr later ↦
        let (x, found, inviter) = invites-find_id l j k d.1 (ground arith) in
        (x, ground (arith, later, found), inviter)
  ]

  cleanup_step :
      (self r : ChatBoardStateV1)
      → post_apply_cleanup c self p ≡ some r
      → (required : HashSet MemberId) × (required_ids c self p ≡ some required)
        × (r ≡ prune c self p required)
  unfolding post_apply_cleanup
  cleanup_step self r h = at (required_ids c self p) refl
    where
      at :
          (v : Option (HashSet MemberId))
          → required_ids c self p ≡ v
          → (required : HashSet MemberId) × (required_ids c self p ≡ some required)
            × (r ≡ prune c self p required)
      at none e = absurd (none_not (rw (e, post_apply_cleanup) at h))
      at (some required) e = (required, e, sym (same (rw (e, post_apply_cleanup) at h)))

  abbrev IsNeeded : ChatBoardStateV1 → MemberId → Type 0
  IsNeeded self k =
      Needed (owner_id c p) (members_by_member_id c self.members) (message_authors self) k

  -- The members after the clean-up are those before who are needed: who wrote a message that is still
  -- there, or stand above somebody who did.
  pub post_apply_cleanup_iff :
      (self r : ChatBoardStateV1) (k : MemberId)
      → post_apply_cleanup c self p ≡ some r
      → (contains (ids r.members) k ≡ true) ↔ (
          (contains (ids self.members) k ≡ true)
          × Needed (owner_id c p) (members_by_member_id c self.members) (message_authors self) k)
  unfolding prune
  post_apply_cleanup_iff self r k h =
      let (required, built, eq) = cleanup_step self r h in
      let needed = required_ids_iff c self p required k built in
      let kept =
        contains-sort_by_key (member_id c)
          (retain (λ m. contains required (member_id c m)) self.members) k
        ∙ contains-retain (member_id c) (contains required) self.members k in
      let kept_r =
        subst
          (λ z. contains (ids z.members) k ≡ (contains (ids self.members) k && contains required k))
          (sym eq) kept in
      (
        (λ x. (ground (arith, kept_r), needed.0 (ground (arith, kept_r)))),
        λ y. ground (arith, kept_r, needed.1 y.1),
      )

  -- The clean-up keeps the members valid: whoever stays keeps his chain of invitations.
  pub post_apply_cleanup-verify :
      (self r : ChatBoardStateV1)
      → verify c self.members p ≡ ok tt
      → Ascending (ids self.members)
      → post_apply_cleanup c self p ≡ some r
      → (verify c r.members p ≡ ok tt) × Ascending (ids r.members)
  unfolding prune
  post_apply_cleanup-verify self r v asc h =
      let (required, built, eq) = cleanup_step self r h in
      let at =
        subst
          (λ z.
            All (Admitted c p (by_id (member_id c) z.members)) z.members
            × Ascending (ids z.members))
          (sym eq)
          (
            Admitted-rest c p self.members (contains required) (up required built) distinct
                ((verify_iff c p self.members).0 v),
            sort_by_key-Ascending (member_id c)
                (retain (λ m. contains required (member_id c m)) self.members)
                (retain-Distinct (member_id c) (λ m. contains required (member_id c m)) self.members
                  distinct),
          ) in
      ((verify_iff c p r.members).1 at.0, at.1)
    where
      distinct : Distinct (ids self.members)
      distinct = Distinct-of_Ascending (ids self.members) asc

      up :
          (required : HashSet MemberId)
          → required_ids c self p ≡ some required
          → (j k : MemberId) → j ≢ owner_id c p
          → invites c self.members j k ≡ true
          → contains required k ≡ true
          → contains required j ≡ true
      up required built j k other inv needed =
          let (x, found, inviter) = invites-find_id self.members j k distinct inv in
          let got = get-by_id (member_id c) k self.members distinct ∙ found in
          (required_ids_iff c self p required j built).1 (
            subst (IsNeeded self) inviter (
              Needed.inviter ((required_ids_iff c self p required k built).0 needed) got
                (subst (λ i. i ≢ owner_id c p) (sym inviter) other)))
