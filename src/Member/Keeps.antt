-- ===== src/Member/Keeps.antt =====
-- The members keep their chains of invitations when a delta adds members and the bans remove some
-- (`apply_delta` of common/src/board_state/member.rs).
use free_talk.Shared.{
  ℕ, ◌≡◌, ◌≢◌, ◌⊎◌, ◌↔◌, inl, inr, refl, sym, ◌∙◌, subst, arith, Bool, true, not, List, [], ◌∷◌,
  none, some, ok, contains, map, All, All-retain, All-zip, retain, Distinct, Bool-cases, nat_eq,
  list_eq, ==_refl, ◌==◌, >>=-eq-ok, if◌then◌else◌,
}
use free_talk.Shared.HashMap
use free_talk.Shared.HashMap.{HashMap}
use free_talk.Shared.HashSet.{HashSet}
use free_talk.Shared.Dedup.{by_id, or_insert_all, push_new, Keyed, push_new-Distinct}
use free_talk.Shared.Order.{
  Ascending, sort_by_key, sort_by_key-Ascending, sort_by_key-Distinct, All-sort_by_key,
}
use free_talk.Shared.Lookup.{
  find_id, get-by_id, get-or_insert_all, find_id-push_new, find_id-retain, find_id-sort_by_key,
  retain-Distinct, All-find_id,
}
use free_talk.Model.{
  Crypto, MemberId, AuthorizedMember, ChatBoardParametersV1, ChatBoardStateV1, member_id,
}
use free_talk.Member.Chain.{
  invited_by, owner_id, get_invite_chain_with_lookup, verify_member_invite_with_lookup,
}
use free_talk.Member.ChainLaws.{Authentic, get_invite_chain_iff}
use free_talk.Member.DownstreamLaws.{invites}
use free_talk.Member.Removal.{Banned, Banned-down, settle_step, banned_ids_iff}
use free_talk.Member.Apply.{settle}
use free_talk.Member.Verify.{Admitted}

module _ (c : Crypto) (p : ChatBoardParametersV1) where
  abbrev ids : List AuthorizedMember → List MemberId
  ids l = map (member_id c) l

  -- A chain stays authentic where every look-up that succeeded gives the same.
  Authentic-mono :
      (m n : HashMap MemberId AuthorizedMember) (x : AuthorizedMember)
      (chain : List AuthorizedMember)
      → ((k : MemberId) (i : AuthorizedMember)
          → HashMap.get k m ≡ some i
          → HashMap.get k n ≡ some i)
      → Authentic c p m x chain
      → Authentic c p n x chain
  Authentic-mono m n x [] keep a = a
  Authentic-mono m n x (i ∷ chain) keep a =
      ((a.0.0, a.0.1, keep (invited_by x) i a.0.2, a.0.3), Authentic-mono m n i chain keep a.1)

  pub Admitted-mono :
      (m n : HashMap MemberId AuthorizedMember) (x : AuthorizedMember)
      → ((k : MemberId) (i : AuthorizedMember)
          → HashMap.get k m ≡ some i
          → HashMap.get k n ≡ some i)
      → Admitted c p m x
      → Admitted c p n x
  Admitted-mono m n x keep (other, (chain, authentic, distinct)) =
      (other, (chain, Authentic-mono m n x chain keep authentic, distinct))

  pub All-invites :
      (l xs : List AuthorizedMember)
      → ((k j : MemberId) → invites c xs j k ≡ true → invites c l j k ≡ true)
      → All (λ x. invites c l (invited_by x) (member_id c x) ≡ true) xs
  All-invites l [] sub = tt
  All-invites l (x ∷ xs) sub = (
    sub (member_id c x) (invited_by x)
        (ground (arith, ==_refl (invited_by x), ==_refl (member_id c x))),
    All-invites l xs (λ k j h. sub k j (ground arith)),
  )

  -- `keep` picks members of `merged`, with whoever invited them; `rest` are these, sorted.
  module _ (merged : List AuthorizedMember) (keep : MemberId → Bool)
      (up : (j k : MemberId)
        → j ≢ owner_id c p
        → invites c merged j k ≡ true
        → keep k ≡ true
        → keep j ≡ true)
      (distinct : Distinct (ids merged)) where
    abbrev kept : List AuthorizedMember
    kept = retain (λ x. keep (member_id c x)) merged

    abbrev rest : List AuthorizedMember
    rest = sort_by_key (member_id c) kept

    get-rest :
        (k : MemberId)
        → HashMap.get k (by_id (member_id c) rest)
          ≡ (if keep k then find_id (member_id c) k merged else none)
    get-rest k =
        get-by_id (member_id c) k rest (
          sort_by_key-Distinct (member_id c) kept
            (retain-Distinct (member_id c) (λ x. keep (member_id c x)) merged distinct))
        ∙ find_id-sort_by_key (member_id c) k kept
            (retain-Distinct (member_id c) (λ x. keep (member_id c x)) merged distinct)
        ∙ find_id-retain (member_id c) k keep merged

    -- Above one who stays, everybody stays.
    Authentic-rest :
        (x : AuthorizedMember) (chain : List AuthorizedMember)
        → invites c merged (invited_by x) (member_id c x) ≡ true
        → keep (member_id c x) ≡ true
        → Authentic c p (by_id (member_id c) merged) x chain
        → Authentic c p (by_id (member_id c) rest) x chain
    Authentic-rest x [] inv stays a = a
    Authentic-rest x (i ∷ chain) inv stays a = (
      (a.0.0, a.0.1, get-rest (invited_by x) ∙ ground (arith, found, inviter_stays), a.0.3),
      Authentic-rest i chain at.0 (subst (λ k. keep k ≡ true) (sym at.1) inviter_stays) a.1,
    )
      where
        found : find_id (member_id c) (invited_by x) merged ≡ some i
        found = sym (get-by_id (member_id c) (invited_by x) merged distinct) ∙ a.0.2

        inviter_stays : keep (invited_by x) ≡ true
        inviter_stays = up (invited_by x) (member_id c x) a.0.1 inv stays

        at :
            (invites c merged (invited_by i) (member_id c i) ≡ true)
            × (member_id c i ≡ invited_by x)
        at =
            All-find_id (member_id c) (λ y. invites c merged (invited_by y) (member_id c y) ≡ true)
              (invited_by x) i merged (All-invites merged merged (λ k j h. h)) found

    pub Admitted-rest :
        All (Admitted c p (by_id (member_id c) merged)) merged
        → All (Admitted c p (by_id (member_id c) rest)) rest
    Admitted-rest h = All-sort_by_key (member_id c) (Admitted c p (by_id (member_id c) rest)) kept (
        All-retain
          (λ x.
            Admitted c p (by_id (member_id c) merged) x
            × (invites c merged (invited_by x) (member_id c x) ≡ true))
          (Admitted c p (by_id (member_id c) rest)) (λ x. keep (member_id c x)) merged admit
          (All-zip (Admitted c p (by_id (member_id c) merged))
            (λ x. invites c merged (invited_by x) (member_id c x) ≡ true) merged h
            (All-invites merged merged (λ k j e. e))))
      where
        admit :
            (x : AuthorizedMember)
            → Admitted c p (by_id (member_id c) merged) x
              × (invites c merged (invited_by x) (member_id c x) ≡ true)
            → keep (member_id c x) ≡ true
            → Admitted c p (by_id (member_id c) rest) x
        admit x ((other, (chain, authentic, distinct_chain)), inv) stays =
            (other, (chain, Authentic-rest x chain inv stays authentic, distinct_chain))

  -- Admission survives the removal of banned members.
  pub settle-Admitted :
      (merged r : List AuthorizedMember) (fuel : ℕ) (state : ChatBoardStateV1)
      → Distinct (ids merged)
      → All (Admitted c p (by_id (member_id c) merged)) merged
      → settle c merged fuel state ≡ ok r
      → All (Admitted c p (by_id (member_id c) r)) r × Ascending (ids r)
  settle-Admitted merged r fuel state distinct h done =
      let (removed, built, eq) = settle_step c merged fuel state r done in
      let exact = λ (k : MemberId).
        only_bans removed k (banned_ids_iff c merged fuel state.bans [] removed k built) in
      subst (λ z. All (Admitted c p (by_id (member_id c) z)) z × Ascending (ids z)) (sym eq)
        (
          Admitted-rest merged (λ k. not (contains removed k))
              (λ j k other inv stays. above removed exact j k inv stays) distinct h,
          sort_by_key-Ascending (member_id c)
              (retain (λ x. not (contains removed (member_id c x))) merged)
              (retain-Distinct (member_id c) (λ x. not (contains removed (member_id c x))) merged
                distinct),
        )
    where
      above :
          (removed : HashSet MemberId)
          → ((k : MemberId) → (contains removed k ≡ true) ↔ Banned c merged state.bans k)
          → (j k : MemberId) → invites c merged j k ≡ true
          → not (contains removed k) ≡ true
          → not (contains removed j) ≡ true
      above removed exact j k inv stays = elim (Bool-cases (contains removed j)) [
        | inl gone ↦ absurd (
            ground
              (arith, (exact k).1 (Banned-down c merged state.bans j k inv ((exact j).0 gone))))
        | inr here ↦ ground arith
      ]

      only_bans :
          (removed : HashSet MemberId) (k : MemberId)
          → (contains removed k ≡ true)
            ↔ ((contains {A = MemberId} [] k ≡ true) ⊎ Banned c merged state.bans k)
          → (contains removed k ≡ true) ↔ Banned c merged state.bans k
      only_bans removed k q = ((λ h. elim (q.0 h) [ inl n ↦ cc | inr b ↦ b ]), λ b. q.1 (inr b))

  -- The look-up table of the check of a delta finds what the merged list holds.
  pub get-combined :
      (self added : List AuthorizedMember) (k : MemberId)
      → Distinct (ids self)
      → HashMap.get k (or_insert_all (member_id c) (by_id (member_id c) self) added)
        ≡ HashMap.get k (by_id (member_id c) (push_new (member_id c) self added))
  get-combined self added k distinct = ground (
    arith,
    get-or_insert_all (member_id c) k (by_id (member_id c) self) added,
    get-by_id (member_id c) k self distinct,
    get-by_id (member_id c) k (push_new (member_id c) self added)
        (push_new-Distinct (member_id c) self added distinct),
    find_id-push_new (member_id c) k self added,
  )

  pub checked_invite :
      (m : HashMap MemberId AuthorizedMember) (x : AuthorizedMember)
      → Keyed (member_id c) m
      → member_id c x ≢ owner_id c p
      → verify_member_invite_with_lookup c x p m ≡ ok tt
      → Admitted c p m x
  unfolding verify_member_invite_with_lookup
  checked_invite m x keyed other h = elim (Bool-cases (invited_by x == owner_id c p)) [
    | inl direct ↦ (other, ([], (ground arith, ground arith, ground arith), (refl, tt)))
    | inr indirect ↦
        let q =
          >>=-eq-ok (get_invite_chain_with_lookup c x p m) (λ chain. ok tt) (rw indirect at h) in
        let (authentic, distinct) = (get_invite_chain_iff c p m x q.0 keyed).0 q.1 in
        (other, (q.0, authentic, distinct))
  ]
