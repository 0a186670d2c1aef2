-- ===== src/Ban/Forged.antt =====
-- Bans that nobody had the right to issue and that the code accepts (common/src/board_state/ban.rs).
use free_talk.Shared.{
  ℕ, ◌-◌, ◌^◌, ◌≤◌, ◌<◌, ◌≡◌, ◌≢◌, inl, inr, refl, sym, ◌∙◌, subst, arith, true, List, [], ◌∷◌, map,
  none, some, ok, All, All-zip, All-mono, Distinct, contains, nat_eq, ==_refl,
}
use free_talk.Shared.HashMap
use free_talk.Shared.HashMap.{HashMap}
use free_talk.Shared.Dedup.{by_id}
use free_talk.Shared.Order.{sort_by, Ascending, Distinct-of_Ascending}
use free_talk.Shared.Lookup.{get-by_id, All-find_id, find_id_of_contains}
use free_talk.Model.{
  Crypto, MemberId, AuthorizedMember, AuthorizedUserBan, ChatBoardStateV1, ChatBoardParametersV1,
  member_id,
}
use free_talk.Member.Chain.{invited_by, owner_id, members_by_member_id, verify as verify_members}
use free_talk.Member.ChainLaws.{Authentic}
use free_talk.Member.DownstreamLaws.{invites, Below}
use free_talk.Member.Apply.{settle}
use free_talk.Member.Removal.{Banned, settle_iff}
use free_talk.Member.Verify.{Admitted, verify_iff as verify_members_iff}
use free_talk.Member.Keeps.{All-invites}
use free_talk.Member.Downstream.{banned_user}
use free_talk.Ban.Validate.{max_user_bans, ban_error, check_ban_signature, verify, verify_signature}
use free_talk.Ban.Good.{IsSigned, IsEntitled, check_ban_signature_iff, ban_error_iff}
use free_talk.Ban.VerifyLaws.{bans_verify_iff, admin_ids, banned_user_ids}
use free_talk.Ban.Apply.{evict, apply_delta}

module _ (c : Crypto) (w : ℕ) (state : ChatBoardStateV1) (p : ChatBoardParametersV1)
    (b : AuthorizedUserBan) where
  single_newest : 0 < max_user_bans state → evict c (b ∷ []) (max_user_bans state) ≡ b ∷ []
  unfolding evict
  single_newest pos = ground arith

  single_applied :
      0 < max_user_bans state
      → verify c w (b ∷ []) state p ≡ ok tt
      → apply_delta c w [] state p (some (b ∷ [])) ≡ ok (b ∷ [])
  unfolding apply_delta sort_by
  single_applied pos v = rw (single_newest pos) (ground (arith, v))

  ban_error_unknown :
      (m : HashMap MemberId AuthorizedMember) (admins : List MemberId)
      → HashMap.get b.banned_by m ≡ none
      → banned_user b ≢ b.banned_by
      → ban_error c b m p admins (banned_user b ∷ []) ≡ none
  unfolding ban_error
  ban_error_unknown m admins nobody other = ground arith

  signature_unknown :
      (m : HashMap MemberId AuthorizedMember)
      → HashMap.get b.banned_by m ≡ none
      → b.banned_by ≢ owner_id c p
      → check_ban_signature c m p b ≡ ok tt
  unfolding check_ban_signature
  signature_unknown m nobody not_owner = ground arith

  passes :
      check_ban_signature c (members_by_member_id c state.members) p b ≡ ok tt
      → ban_error c b
          (members_by_member_id c state.members)
          p
          (admin_ids c w (b ∷ []) state p)
          (banned_user_ids c w (b ∷ []) state p)
        ≡ none
      → IsSigned c (members_by_member_id c state.members) p b
        × IsEntitled c
            (members_by_member_id c state.members)
            p
            (admin_ids c w (b ∷ []) state p)
            (banned_user_ids c w (b ∷ []) state p)
            b
  passes signed entitled = (
    (check_ban_signature_iff c (members_by_member_id c state.members) p b).0 signed,
    (ban_error_iff c (members_by_member_id c state.members) p (admin_ids c w (b ∷ []) state p)
          (banned_user_ids c w (b ∷ []) state p) b).0
        entitled,
  )

  -- A ban of any user, whose issuer is neither the owner nor a member nor the banned user, is accepted
  -- whatever its signature is.
  apply_delta_unsigned :
      0 < w
      → 0 < max_user_bans state
      → max_user_bans state ≤ 2 ^ (w - 1)
      → b.banned_by ≢ owner_id c p
      → HashMap.get b.banned_by (members_by_member_id c state.members) ≡ none
      → banned_user b ≢ b.banned_by
      → apply_delta c w [] state p (some (b ∷ [])) ≡ ok (b ∷ [])
  apply_delta_unsigned posw pos fits not_owner nobody other = single_applied pos (
      (bans_verify_iff c w (b ∷ []) state p posw fits).1 (
        omega arith,
        (
          passes (signature_unknown (members_by_member_id c state.members) nobody not_owner) (
              ban_error_unknown (members_by_member_id c state.members)
                (admin_ids c w (b ∷ []) state p) nobody other),
          tt,
        ),
      ))

  ban_error_absent :
      (m : HashMap MemberId AuthorizedMember) (admins banned : List MemberId)
      → HashMap.get (banned_user b) m ≡ none
      → ban_error c b m p admins banned ≡ none
  unfolding ban_error
  ban_error_absent m admins banned absent = ground arith

  signature_member :
      (m : HashMap MemberId AuthorizedMember) (x : AuthorizedMember)
      → HashMap.get b.banned_by m ≡ some x
      → b.banned_by ≢ owner_id c p
      → verify_signature c b x.member.member_vk ≡ true
      → check_ban_signature c m p b ≡ ok tt
  unfolding check_ban_signature
  signature_member m x found not_owner signed = ground arith

  -- Any member may ban the owner, who is in no list of members: the ban is accepted with the member's
  -- own signature.
  apply_delta_owner_banned :
      0 < w
      → 0 < max_user_bans state
      → max_user_bans state ≤ 2 ^ (w - 1)
      → banned_user b ≡ owner_id c p
      → HashMap.get (owner_id c p) (members_by_member_id c state.members) ≡ none
      → (x : AuthorizedMember) → b.banned_by ≢ owner_id c p
      → HashMap.get b.banned_by (members_by_member_id c state.members) ≡ some x
      → verify_signature c b x.member.member_vk ≡ true
      → apply_delta c w [] state p (some (b ∷ [])) ≡ ok (b ∷ [])
  apply_delta_owner_banned posw pos fits target absent x not_owner found signed =
      single_applied pos (
        (bans_verify_iff c w (b ∷ []) state p posw fits).1 (
          omega arith,
          (
            passes
                (signature_member (members_by_member_id c state.members) x found not_owner signed)
                (ban_error_absent (members_by_member_id c state.members)
                  (admin_ids c w (b ∷ []) state p) (banned_user_ids c w (b ∷ []) state p)
                  (rw target absent)),
            tt,
          ),
        ))

module _ (c : Crypto) (p : ChatBoardParametersV1) (members : List AuthorizedMember) where
  -- Everybody who has an authentic chain is below the owner.
  Authentic-Below :
      Distinct (map (member_id c) members)
      → (x : AuthorizedMember) (chain : List AuthorizedMember)
      → invites c members (invited_by x) (member_id c x) ≡ true
      → Authentic c p (by_id (member_id c) members) x chain
      → Below c members (owner_id c p) (member_id c x)
  Authentic-Below distinct x [] inv a =
      Below.direct (subst (λ j. invites c members j (member_id c x) ≡ true) a.1 inv)
  Authentic-Below distinct x (i ∷ chain) inv a =
      Below.further
        (subst (Below c members (owner_id c p)) at.1 (Authentic-Below distinct i chain at.0 a.1))
        inv
    where
      at :
          (invites c members (invited_by i) (member_id c i) ≡ true) × (member_id c i ≡ invited_by x)
      at =
          All-find_id (member_id c) (λ y. invites c members (invited_by y) (member_id c y) ≡ true)
            (invited_by x) i members (All-invites c p members members (λ k j h. h))
            (sym (get-by_id (member_id c) (invited_by x) members distinct) ∙ a.0.2)

  -- A ban of the owner removes every verified member.
  owner_banned_removes_all :
      (fuel : ℕ) (state : ChatBoardStateV1) (b : AuthorizedUserBan) (r : List AuthorizedMember)
      → verify_members c members p ≡ ok tt
      → Ascending (map (member_id c) members)
      → state.bans ≡ b ∷ []
      → banned_user b ≡ owner_id c p
      → settle c members fuel state ≡ ok r
      → r ≡ []
  owner_banned_removes_all fuel state b r v asc only target done = nobody r refl
    where
      distinct : Distinct (map (member_id c) members)
      distinct = Distinct-of_Ascending (map (member_id c) members) asc

      below : All (λ x. Below c members (owner_id c p) (member_id c x)) members
      below =
          All-mono
            (λ x.
              Admitted c p (by_id (member_id c) members) x
              × (invites c members (invited_by x) (member_id c x) ≡ true))
            (λ x. Below c members (owner_id c p) (member_id c x)) members
            (λ x h. Authentic-Below distinct x h.0.1.0 h.1 h.0.1.1)
            (All-zip (Admitted c p (by_id (member_id c) members))
              (λ x. invites c members (invited_by x) (member_id c x) ≡ true) members
              ((verify_members_iff c p members).0 v) (All-invites c p members members (λ k j h. h)))

      banned :
          (k : MemberId)
          → contains (map (member_id c) members) k ≡ true
          → Banned c members state.bans k
      banned k h =
          let (x, found) = find_id_of_contains (member_id c) k members h in
          let q =
            All-find_id (member_id c) (λ y. Below c members (owner_id c p) (member_id c y)) k x
              members below found in
          subst (λ bs. Banned c members bs k) (sym only)
            (inl (
              inr (
                subst (λ j. Below c members j k) (sym target)
                  (subst (Below c members (owner_id c p)) q.1 q.0))))

      nobody : (l : List AuthorizedMember) → r ≡ l → r ≡ []
      nobody [] e = e
      nobody (y ∷ ys) e =
          let q = (settle_iff c members fuel state r (member_id c y) done).0 (
            subst (λ z. contains (map (member_id c) z) (member_id c y) ≡ true) (sym e)
              (ground (arith, ==_refl (member_id c y)))) in
          absurd (q.1 (banned (member_id c y) q.0))
