-- ===== src/Ban/Good.antt =====
-- Which bans pass the checks of common/src/board_state/ban.rs, said without them: who signed a ban, and
-- how its issuer stands to the banned member.
use free_talk.Shared.{
  true, false, Option-cases, none, some, Result, ok, err, ◌≡◌, ◌≢◌, ◌↔◌, inl, inr, refl, arith,
  contains, ◌==◌, ==_false, nat_eq, Bool-cases, ◌||◌,
}
use free_talk.Shared.HashMap
use free_talk.Shared.HashMap.{HashMap}
use free_talk.Shared.HashSet.{HashSet}
use free_talk.Model.{
  Crypto, MemberId, AuthorizedMember, AuthorizedUserBan, ChatBoardParametersV1, BanValidationError,
}
use free_talk.Member.Chain.{owner_id}
use free_talk.Member.Downstream.{banned_user}
use free_talk.Ban.Validate.{
  verify_signature, validate_invite_chain, error_of, ban_error, check_ban_signature,
}
use free_talk.Ban.ChainLaws.{Above, validate_invite_chain_iff}

module _ (c : Crypto) (m : HashMap MemberId AuthorizedMember) (p : ChatBoardParametersV1) where
  -- The issuer is the owner or a member, and signed the ban; of an issuer who is neither, nothing is asked.
  pub record IsSigned (b : AuthorizedUserBan) : Type 0 where
    pub by_owner : b.banned_by ≡ owner_id c p → verify_signature c b p.owner ≡ true
    pub by_member :
        b.banned_by ≢ owner_id c p
        → (issuer : AuthorizedMember) → HashMap.get b.banned_by m ≡ some issuer
        → verify_signature c b issuer.member.member_vk ≡ true

  pub check_ban_signature_iff :
      (b : AuthorizedUserBan) → (check_ban_signature c m p b ≡ ok tt) ↔ IsSigned b
  unfolding check_ban_signature
  check_ban_signature_iff b = (
    (λ h. record { by_owner = λ e. ground arith; by_member = λ n issuer e. ground arith }),
    λ s. elim (Bool-cases (b.banned_by == owner_id c p)) [
      | inl owner ↦ ground (arith, s.by_owner)
      | inr other ↦ elim (Option-cases (HashMap.get b.banned_by m)) [
        | inl unknown ↦ rw (other, unknown) refl
        | inr (issuer, found) ↦
            let signed = s.by_member (ground arith) issuer found in
            rw (other, found) (rw signed refl)
      ]
    ],
  )

module _ (c : Crypto) (m : HashMap MemberId AuthorizedMember) (p : ChatBoardParametersV1)
    (admins banned : HashSet MemberId) where
  -- A member who is banned by neither the owner nor an administrator is banned by a member who is above
  -- him, or the same; or by somebody who is no member, and whom no ban names.
  pub record IsEntitled (b : AuthorizedUserBan) : Type 0 where
    pub above :
        (user issuer : AuthorizedMember)
        → HashMap.get (banned_user b) m ≡ some user
        → b.banned_by ≢ owner_id c p
        → contains admins b.banned_by ≡ false
        → HashMap.get b.banned_by m ≡ some issuer
        → Above c user issuer m (owner_id c p) user
    pub gone :
        (user : AuthorizedMember)
        → HashMap.get (banned_user b) m ≡ some user
        → b.banned_by ≢ owner_id c p
        → contains admins b.banned_by ≡ false
        → HashMap.get b.banned_by m ≡ none
        → contains banned b.banned_by ≡ false

  error_of-none : (r : Result BanValidationError (Unit {0})) → error_of c r ≡ none → r ≡ ok tt
  unfolding error_of
  error_of-none (ok u) h = refl
  error_of-none (err e) h = cc

  pub ban_error_iff :
      (b : AuthorizedUserBan) → (ban_error c b m p admins banned ≡ none) ↔ IsEntitled b
  unfolding ban_error error_of
  ban_error_iff b = (
    (λ h. record {
      above = λ user issuer user_there no_owner no_admin issuer_there.
          (validate_invite_chain_iff c user issuer m (owner_id c p)).0 (
            error_of-none (validate_invite_chain c user issuer m (owner_id c p)) (
              rw
                (
                  ban_error,
                  user_there,
                  ==_false b.banned_by (owner_id c p) no_owner,
                  no_admin,
                  issuer_there,
                )
                at h));
      gone = λ user user_there no_owner no_admin issuer_gone. ground (
        arith,
        rw
            (
              ban_error,
              user_there,
              ==_false b.banned_by (owner_id c p) no_owner,
              no_admin,
              issuer_gone,
            )
            at h,
      );
    }),
    λ e. elim (Option-cases (HashMap.get (banned_user b) m)) [
      | inl nobody ↦ rw (ban_error, nobody) refl
      | inr (user, user_there) ↦
          elim (Bool-cases (b.banned_by == owner_id c p || contains admins b.banned_by)) [
            | inl may ↦ rw (ban_error, user_there, may) refl
            | inr not_may ↦
                let no_owner : b.banned_by ≢ owner_id c p = ground arith in
                let no_admin : contains admins b.banned_by ≡ false = ground arith in
                elim (Option-cases (HashMap.get b.banned_by m)) [
                  | inl issuer_gone ↦
                      rw (ban_error, user_there, not_may, issuer_gone)
                        (rw (e.gone user user_there no_owner no_admin issuer_gone) refl)
                  | inr (issuer, issuer_there) ↦
                      rw (ban_error, user_there, not_may, issuer_there)
                        (rw
                          ((validate_invite_chain_iff c user issuer m (owner_id c p)).1
                            (e.above user issuer user_there no_owner no_admin issuer_there))
                          refl)
                ]
          ]
    ],
  )
