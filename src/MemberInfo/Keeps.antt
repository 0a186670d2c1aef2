-- ===== src/MemberInfo/Keeps.antt =====
-- An accepted delta leaves entries that verify (`apply_delta` of
-- common/src/board_state/member_info.rs).
use free_talk.Shared.{
  ◌≡◌, ◌≢◌, inl, inr, refl, sym, subst, arith, true, List, [], ◌∷◌, Option, some, ok, All-for_each,
  All, All-retain, map, retain, Distinct, Bool-cases, ltb, nat_eq, ◌==◌, ==_comm,
}
use free_talk.Shared.HashMap
use free_talk.Shared.HashMap.{HashMap}
use free_talk.Shared.Order.{Ascending, sort_by_key-Ascending, All-sort_by_key}
use free_talk.Shared.Lookup.{retain-Distinct}
use free_talk.Model.{
  Crypto, MemberId, AuthorizedMemberInfo, AuthorizedMember, ChatBoardStateV1, ChatBoardParametersV1,
}
use free_talk.Member.Chain.{owner_id, members_by_member_id}
use free_talk.MemberInfo.{
  info_id, info_version, upsert, check_info, verify_signature_with_key, verify, admits, take_all,
  retained, entries, apply_delta,
}
use free_talk.MemberInfo.Newest.{take_step, take_all-Distinct, apply_step, has_info}

module _ (c : Crypto) (state : ChatBoardStateV1) (p : ChatBoardParametersV1) where
  -- The owner's entry has his signature, and a member's entry that member's.
  pub record IsSigned (i : AuthorizedMemberInfo) : Type 0 where
    pub by_owner : info_id i ≡ owner_id c p → verify_signature_with_key c i p.owner ≡ true
    pub by_member :
        info_id i ≢ owner_id c p
        → (m : AuthorizedMember)
        → HashMap.get (info_id i) (members_by_member_id c state.members) ≡ some m
        → verify_signature_with_key c i m.member.member_vk ≡ true

  All-upsert :
      (i : AuthorizedMemberInfo) (infos : List AuthorizedMemberInfo)
      → IsSigned i
      → All IsSigned infos
      → All IsSigned (upsert i infos)
  unfolding upsert
  All-upsert i [] s h = (s, tt)
  All-upsert i (j ∷ infos) s h = elim (Bool-cases (info_id j == info_id i)) [
    | inl same ↦ elim (Bool-cases (ltb (info_version j) (info_version i))) [
      | inl old ↦ rw (same, old) ((s, h.1))
      | inr new ↦ rw (same, new) h
    ]
    | inr other ↦ rw other ((h.0, All-upsert i infos s h.1))
  ]

  admitted_IsSigned : (i : AuthorizedMemberInfo) → admits c state p i ≡ ok true → IsSigned i
  unfolding admits
  admitted_IsSigned i h = record { by_owner = λ e. ground arith; by_member = λ n m e. ground arith }

  All-take_all :
      (self ds : List AuthorizedMemberInfo)
      → All IsSigned self
      → (take_all c state p self ds).1 ≡ ok tt
      → All IsSigned (take_all c state p self ds).0
  unfolding take_all
  All-take_all self [] a h = a
  All-take_all self (i ∷ ds) a h = elim (take_step c state p self i ds h) [
    | inl (taken, e) ↦
        subst (λ z. All IsSigned z.0) (sym e)
          (All-take_all (upsert i self) ds (All-upsert i self (admitted_IsSigned i taken) a)
            (subst (λ z. z.1 ≡ ok tt) e h))
    | inr (skipped, e) ↦
        subst (λ z. All IsSigned z.0) (sym e)
          (All-take_all self ds a (subst (λ z. z.1 ≡ ok tt) e h))
  ]

  present_key :
      {V : Type 0} (k : MemberId) (m : HashMap MemberId V)
      → HashMap.contains_key k m ≡ true
      → (x : V) × (HashMap.get k m ≡ some x)
  present_key k [] h = cc
  present_key k ((j, x) ∷ m) h = elim (Bool-cases (j == k)) [
    | inl here ↦ (x, rw here refl)
    | inr later ↦ let (y, got) = present_key k m (ground arith) in (y, rw later got)
  ]

  signed_passes :
      (i : AuthorizedMemberInfo)
      → IsSigned i
      → has_info c state p (info_id i) ≡ true
      → check_info c (members_by_member_id c state.members) p i ≡ ok tt
  unfolding check_info
  signed_passes i s member = elim (Bool-cases (info_id i == owner_id c p)) [
    | inl owner ↦ ground (arith, s.by_owner)
    | inr other ↦
        let (m, got) =
          present_key (info_id i) (members_by_member_id c state.members)
            (ground (arith, ==_comm (owner_id c p) (info_id i))) in
        let signed = s.by_member (ground arith) m got in rw (other, got) (rw signed refl)
  ]

  -- An accepted delta leaves entries that verify, in ascending order of members with one entry for
  -- each, if nobody had two entries before it and the entries before it were signed by the owner or
  -- by the member, where he is still a member.
  pub apply_delta-verify :
      (self r : List AuthorizedMemberInfo) (d : Option (List AuthorizedMemberInfo))
      → All IsSigned self
      → Distinct (map info_id self)
      → apply_delta c self state p d ≡ (r, ok tt)
      → (verify c r state p ≡ ok tt) × Ascending (map info_id r)
  unfolding retained verify
  apply_delta-verify self r d signed distinct h =
      let (taken, eq) = apply_step c state p self r d h in
      let all = (take_all c state p self (entries d)).0 in
      let checked =
        All-sort_by_key info_id
          (λ i. check_info c (members_by_member_id c state.members) p i ≡ ok tt)
          (retain (λ i. has_info c state p (info_id i)) all)
          (All-retain IsSigned
            (λ i. check_info c (members_by_member_id c state.members) p i ≡ ok tt)
            (λ i. has_info c state p (info_id i)) all signed_passes
            (All-take_all self (entries d) signed taken)) in
      (
        subst (λ z. verify c z state p ≡ ok tt) (sym eq)
            (All-for_each (check_info c (members_by_member_id c state.members) p)
              (retained c state p all) checked),
        subst (λ z. Ascending (map info_id z)) (sym eq)
            (sort_by_key-Ascending info_id (retain (λ i. has_info c state p (info_id i)) all) (
              retain-Distinct info_id (λ i. has_info c state p (info_id i)) all
                (take_all-Distinct c state p self (entries d) distinct taken))),
      )
