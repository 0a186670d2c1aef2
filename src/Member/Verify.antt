-- ===== src/Member/Verify.antt =====
-- The verification of the members (`verify` of common/src/board_state/member.rs), as a statement
-- about every member's chain of invitations.
use free_talk.Shared.{
  ◌≡◌, ◌≢◌, ◌↔◌, refl, arith, List, [], ◌∷◌, ok, for_each-All, All-for_each, map, All, All-mono,
  Distinct, nat_eq, list_eq, list_beq_iff,
}
use free_talk.Shared.HashMap.{HashMap}
use free_talk.Shared.Dedup.{Keyed, by_id-Keyed}
use free_talk.Model.{Crypto, MemberId, AuthorizedMember, ChatBoardParametersV1, member_id}
use free_talk.Member.Chain.{
  invited_by, owner_id, members_by_member_id, get_invite_chain_with_lookup, check_member, verify,
}
use free_talk.Member.ChainLaws.{Authentic, get_invite_chain_iff}

module _ (c : Crypto) (p : ChatBoardParametersV1) where
  abbrev ids : List AuthorizedMember → List MemberId
  ids l = map (member_id c) l

  -- `x` is not the owner, and an authentic chain without repetition leads from him to the owner.
  abbrev pub Admitted : HashMap MemberId AuthorizedMember → AuthorizedMember → Type 0
  Admitted m x =
      (member_id c x ≢ owner_id c p)
      × ((chain : List AuthorizedMember) × Authentic c p m x chain × Distinct (ids (x ∷ chain)))

  Authentic-no_self :
      (m : HashMap MemberId AuthorizedMember) (x : AuthorizedMember) (chain : List AuthorizedMember)
      → Authentic c p m x chain
      → invited_by x ≢ member_id c x
  Authentic-no_self m x [] a = a.0
  Authentic-no_self m x (i ∷ chain) a = a.0.0

  pub key_of_owner :
      (x : AuthorizedMember) → x.member.member_vk ≡ p.owner → member_id c x ≡ owner_id c p
  unfolding member_id owner_id
  key_of_owner x e = rw e

  check_member_found :
      (m : HashMap MemberId AuthorizedMember) (x : AuthorizedMember)
      → check_member c p m x ≡ ok tt
      → (member_id c x ≢ owner_id c p)
        × ((chain : List AuthorizedMember) × (get_invite_chain_with_lookup c x p m ≡ ok chain))
  unfolding check_member
  check_member_found m x h = (ground arith, ground arith)

  check_member_passes :
      (m : HashMap MemberId AuthorizedMember) (x : AuthorizedMember) (chain : List AuthorizedMember)
      → member_id c x ≢ owner_id c p
      → invited_by x ≢ member_id c x
      → get_invite_chain_with_lookup c x p m ≡ ok chain
      → check_member c p m x ≡ ok tt
  unfolding check_member
  check_member_passes m x chain n s h =
      ground (arith, list_beq_iff x.member.member_vk p.owner, key_of_owner x)

  pub check_member_iff :
      (m : HashMap MemberId AuthorizedMember) (x : AuthorizedMember)
      → Keyed (member_id c) m
      → (check_member c p m x ≡ ok tt) ↔ Admitted m x
  check_member_iff m x keyed = (forward, backward)
    where
      forward : check_member c p m x ≡ ok tt → Admitted m x
      forward h =
          let (n, (chain, got)) = check_member_found m x h in
          let (authentic, distinct) = (get_invite_chain_iff c p m x chain keyed).0 got in
          (n, (chain, authentic, distinct))

      backward : Admitted m x → check_member c p m x ≡ ok tt
      backward (n, (chain, authentic, distinct)) =
          check_member_passes m x chain n (Authentic-no_self m x chain authentic)
            ((get_invite_chain_iff c p m x chain keyed).1 (authentic, distinct))

  -- The verification accepts a list exactly when all its members are admitted.
  pub verify_iff :
      (xs : List AuthorizedMember)
      → (verify c xs p ≡ ok tt) ↔ All (Admitted (members_by_member_id c xs)) xs
  unfolding verify
  verify_iff [] = ((λ h. tt), (λ h. refl))
  verify_iff (x ∷ xs) = (
    (λ h.
        All-mono (λ y. check_member c p m y ≡ ok tt) (Admitted m) (x ∷ xs)
          (λ y. (check_member_iff m y keyed).0) (for_each-All (check_member c p m) (x ∷ xs) h)),
    λ a. All-for_each (check_member c p m) (x ∷ xs) (
        All-mono (Admitted m) (λ y. check_member c p m y ≡ ok tt) (x ∷ xs)
          (λ y. (check_member_iff m y keyed).1) a),
  )
    where
      m : HashMap MemberId AuthorizedMember
      m = members_by_member_id c (x ∷ xs)

      keyed : Keyed (member_id c) m
      keyed = by_id-Keyed (member_id c) (x ∷ xs)
