-- ===== src/MemberInfo/Newest.antt =====
-- Which entry of a member is kept (`apply_delta` of common/src/board_state/member_info.rs).
use free_talk.Shared.{
  ◌≤◌, ◌≡◌, ◌≢◌, ◌⊎◌, inl, inr, refl, sym, ◌∙◌, subst, ap, arith, Bool, true, false, ◌||◌, List, [],
  ◌∷◌, Option, none, some, Result, ok, err, if◌then◌else◌, contains, map, retain, Distinct,
  Bool-cases, ltb, nat_eq, nat_beq_iff, ◌==◌, ==_comm,
}
use free_talk.Shared.HashMap
use free_talk.Shared.HashMap.{HashMap}
use free_talk.Shared.Lookup.{find_id, find_id-retain, find_id-sort_by_key, retain-Distinct}
use free_talk.Model.{
  Crypto, MemberId, AuthorizedMemberInfo, AuthorizedMember, ChatBoardStateV1, ChatBoardParametersV1,
  Error,
}
use free_talk.Member.Chain.{owner_id, members_by_member_id}
use free_talk.MemberInfo.{
  info_id, info_version, upsert, admits, take_all, retained, entries, apply_delta,
}

-- The newer of what is there and what arrives; what is there stays if the versions are the same.
abbrev pub newer : Option AuthorizedMemberInfo → AuthorizedMemberInfo → Option AuthorizedMemberInfo
newer none i = some i
newer (some j) i = some (if ltb (info_version j) (info_version i) then i else j)

-- The newest entry of `k`.
abbrev pub latest :
    MemberId → Option AuthorizedMemberInfo → List AuthorizedMemberInfo → Option AuthorizedMemberInfo
latest k old [] = old
latest k old (i ∷ infos) = latest k (if info_id i == k then newer old i else old) infos

info_of : Bool → AuthorizedMemberInfo → AuthorizedMemberInfo → AuthorizedMemberInfo
info_of b i j = if b then i else j

find_id-upsert :
    (k : MemberId) (i : AuthorizedMemberInfo) (infos : List AuthorizedMemberInfo)
    → find_id info_id k (upsert i infos)
      ≡ (if info_id i == k then newer (find_id info_id k infos) i else find_id info_id k infos)
unfolding upsert
find_id-upsert k i [] = refl
find_id-upsert k i (j ∷ infos) = elim (Bool-cases (info_id j == info_id i)) [
  | inl same ↦ elim (Bool-cases (ltb (info_version j) (info_version i))) [
    | inl old ↦ ground (arith, same, old)
    | inr new ↦ ground (arith, same, new)
  ]
  | inr other ↦ ground (arith, other, find_id-upsert k i infos)
]

absent-upsert :
    (i : AuthorizedMemberInfo) (infos : List AuthorizedMemberInfo) (k : MemberId)
    → contains (map info_id infos) k ≡ false
    → info_id i ≢ k
    → contains (map info_id (upsert i infos)) k ≡ false
unfolding upsert
absent-upsert i [] k h n = ground arith
absent-upsert i (j ∷ infos) k h n = elim (Bool-cases (info_id j == info_id i)) [
  | inl same ↦ elim (Bool-cases (ltb (info_version j) (info_version i))) [
    | inl old ↦ ground (arith, same, old)
    | inr new ↦ ground (arith, same, new)
  ]
  | inr other ↦ ground (arith, other, absent-upsert i infos k (ground arith) n)
]

pub upsert-Distinct :
    (i : AuthorizedMemberInfo) (infos : List AuthorizedMemberInfo)
    → Distinct (map info_id infos)
    → Distinct (map info_id (upsert i infos))
unfolding upsert
upsert-Distinct i [] d = (refl, tt)
upsert-Distinct i (j ∷ infos) d = elim (Bool-cases (info_id j == info_id i)) [
  | inl same ↦ elim (Bool-cases (ltb (info_version j) (info_version i))) [
    | inl old ↦
        rw (same, old)
          ((
            subst (λ k. contains (map info_id infos) k ≡ false)
                ((nat_beq_iff (info_id j) (info_id i)).0 same) d.0,
            d.1,
          ))
    | inr new ↦ rw (same, new) d
  ]
  | inr other ↦
      rw other ((absent-upsert i infos (info_id j) d.0 (ground arith), upsert-Distinct i infos d.1))
]

refused : Error → Result Error (Unit {0})
refused e = err e

not_ok : (e : Error) → refused e ≡ ok tt → ⊥
unfolding refused
not_ok e h = cc

absent_key :
    (k : MemberId) (m : HashMap MemberId AuthorizedMember)
    → HashMap.get k m ≡ none
    → HashMap.contains_key k m ≡ false
absent_key k [] h = refl
absent_key k ((j, x) ∷ m) h = ground (arith, absent_key k m)

module _ (c : Crypto) (state : ChatBoardStateV1) (p : ChatBoardParametersV1) where
  pub take_step :
      (self : List AuthorizedMemberInfo) (i : AuthorizedMemberInfo) (ds : List AuthorizedMemberInfo)
      → (take_all c state p self (i ∷ ds)).1 ≡ ok tt
      → ((admits c state p i ≡ ok true)
          × (take_all c state p self (i ∷ ds) ≡ take_all c state p (upsert i self) ds))
        ⊎ ((admits c state p i ≡ ok false)
            × (take_all c state p self (i ∷ ds) ≡ take_all c state p self ds))
  unfolding take_all
  take_step self i ds h = at (admits c state p i) refl
    where
      at :
          (v : Result Error Bool)
          → admits c state p i ≡ v
          → ((admits c state p i ≡ ok true)
              × (take_all c state p self (i ∷ ds) ≡ take_all c state p (upsert i self) ds))
            ⊎ ((admits c state p i ≡ ok false)
                × (take_all c state p self (i ∷ ds) ≡ take_all c state p self ds))
      at (err e) q = absurd (ground (arith, rw (q, take_all) at h))
      at (ok true) q = inl (q, rw (q, take_all) refl)
      at (ok false) q = inr (q, rw (q, take_all) refl)

  pub take_all-Distinct :
      (self ds : List AuthorizedMemberInfo)
      → Distinct (map info_id self)
      → (take_all c state p self ds).1 ≡ ok tt
      → Distinct (map info_id (take_all c state p self ds).0)
  unfolding take_all
  take_all-Distinct self [] d h = d
  take_all-Distinct self (i ∷ ds) d h = elim (take_step self i ds h) [
    | inl (taken, e) ↦
        subst (λ z. Distinct (map info_id z.0)) (sym e)
          (take_all-Distinct (upsert i self) ds (upsert-Distinct i self d)
            (subst (λ z. z.1 ≡ ok tt) e h))
    | inr (skipped, e) ↦
        subst (λ z. Distinct (map info_id z.0)) (sym e)
          (take_all-Distinct self ds d (subst (λ z. z.1 ≡ ok tt) e h))
  ]

  -- `k` is the owner or a member.
  abbrev pub has_info : MemberId → Bool
  has_info k = owner_id c p == k || HashMap.contains_key k (members_by_member_id c state.members)

  skipped_absent :
      (i : AuthorizedMemberInfo) → admits c state p i ≡ ok false → has_info (info_id i) ≡ false
  unfolding admits
  skipped_absent i h = ground (
    arith,
    absent_key (info_id i) (members_by_member_id c state.members),
    ==_comm (owner_id c p) (info_id i),
  )

  -- The loop keeps the newest entry of everybody who may have one.
  find_id-take_all :
      (k : MemberId) (self ds : List AuthorizedMemberInfo)
      → has_info k ≡ true
      → (take_all c state p self ds).1 ≡ ok tt
      → find_id info_id k (take_all c state p self ds).0 ≡ latest k (find_id info_id k self) ds
  unfolding take_all
  find_id-take_all k self [] member h = refl
  find_id-take_all k self (i ∷ ds) member h = elim (take_step self i ds h) [
    | inl (taken, e) ↦
        subst (λ z. find_id info_id k z.0 ≡ latest k (find_id info_id k self) (i ∷ ds)) (sym e)
          (find_id-take_all k (upsert i self) ds member (subst (λ z. z.1 ≡ ok tt) e h)
            ∙ ap (λ o. latest k o ds) (find_id-upsert k i self))
    | inr (skipped, e) ↦
        let other : (info_id i == k) ≡ false = differs i k member skipped in
        subst (λ z. find_id info_id k z.0 ≡ latest k (find_id info_id k self) (i ∷ ds)) (sym e)
          (find_id-take_all k self ds member (subst (λ z. z.1 ≡ ok tt) e h)
            ∙ ap (λ o. latest k o ds) (rw other refl))
  ]
    where
      differs :
          (i : AuthorizedMemberInfo) (k : MemberId)
          → has_info k ≡ true
          → admits c state p i ≡ ok false
          → (info_id i == k) ≡ false
      differs i k member skipped = elim (Bool-cases (info_id i == k)) [
        | inl same ↦ absurd (
            ground (
              arith,
              skipped_absent i skipped,
              subst (λ j. has_info j ≡ true) (sym ((nat_beq_iff (info_id i) k).0 same)) member,
            ))
        | inr other ↦ other
      ]

  pub apply_step :
      (self r : List AuthorizedMemberInfo) (d : Option (List AuthorizedMemberInfo))
      → apply_delta c self state p d ≡ (r, ok tt)
      → ((take_all c state p self (entries d)).1 ≡ ok tt)
        × (r ≡ retained c state p (take_all c state p self (entries d)).0)
  unfolding apply_delta refused
  apply_step self r d h = at (take_all c state p self (entries d)).1 refl
    where
      at :
          (v : Result Error (Unit {0}))
          → (take_all c state p self (entries d)).1 ≡ v
          → ((take_all c state p self (entries d)).1 ≡ ok tt)
            × (r ≡ retained c state p (take_all c state p self (entries d)).0)
      at (err e) q = absurd (not_ok e (ap (λ z. z.1) (rw (q, apply_delta) at h)))
      at (ok u) q = (q, sym (ap (λ z. z.0) (rw (q, apply_delta) at h)))

  -- After an accepted delta, where nobody had two entries before it, the owner and each member have
  -- the newest of their entries: of the one before and those of the delta, by version, the first of
  -- one version. Nobody else has an entry.
  pub apply_delta-latest :
      (self r : List AuthorizedMemberInfo) (d : Option (List AuthorizedMemberInfo)) (k : MemberId)
      → Distinct (map info_id self)
      → apply_delta c self state p d ≡ (r, ok tt)
      → find_id info_id k r
        ≡ (if has_info k then latest k (find_id info_id k self) (entries d) else none)
  unfolding retained
  apply_delta-latest self r d k distinct h =
      let (taken, eq) = apply_step self r d h in
      let all = (take_all c state p self (entries d)).0 in
      let distinct_all = take_all-Distinct self (entries d) distinct taken in
      subst
        (λ z.
          find_id info_id k z
          ≡ (if has_info k then latest k (find_id info_id k self) (entries d) else none))
        (sym eq)
        (find_id-sort_by_key info_id k (retain (λ i. has_info (info_id i)) all)
            (retain-Distinct info_id (λ i. has_info (info_id i)) all distinct_all)
          ∙ find_id-retain info_id k has_info all
          ∙ elim (Bool-cases (has_info k)) [
            | inl member ↦ rw member (find_id-take_all k self (entries d) member taken)
            | inr other ↦ rw other refl
          ])

latest-rises :
    (k : MemberId) (j : AuthorizedMemberInfo) (ds : List AuthorizedMemberInfo)
    → (x : AuthorizedMemberInfo) × (latest k (some j) ds ≡ some x)
      × (info_version j ≤ info_version x)
latest-rises k j [] = (j, refl, omega arith)
latest-rises k j (i ∷ ds) = elim (Bool-cases (info_id i == k)) [
  | inl here ↦ elim (Bool-cases (ltb (info_version j) (info_version i))) [
    | inl older ↦
        let (x, got, le) = latest-rises k i ds in (x, rw (here, older) got, ground (arith, le))
    | inr newer ↦ let (x, got, le) = latest-rises k j ds in (x, rw (here, newer) got, le)
  ]
  | inr other ↦ let (x, got, le) = latest-rises k j ds in (x, rw other got, le)
]

-- The version of an entry never falls: if somebody who may have an entry has one before an accepted
-- delta, he has one of the same or a greater version after it.
apply_delta_rises :
    (c : Crypto) (state : ChatBoardStateV1) (p : ChatBoardParametersV1)
    (self r : List AuthorizedMemberInfo) (d : Option (List AuthorizedMemberInfo)) (k : MemberId)
    (j : AuthorizedMemberInfo)
    → Distinct (map info_id self)
    → has_info c state p k ≡ true
    → find_id info_id k self ≡ some j
    → apply_delta c self state p d ≡ (r, ok tt)
    → (x : AuthorizedMemberInfo) × (find_id info_id k r ≡ some x)
      × (info_version j ≤ info_version x)
apply_delta_rises c state p self r d k j distinct member found h =
    let (x, got, le) = latest-rises k j (entries d) in
    (
      x,
      apply_delta-latest c state p self r d k distinct h
          ∙ rw member (ap (λ o. latest k o (entries d)) found ∙ got),
      le,
    )
