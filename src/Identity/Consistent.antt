-- ===== src/Identity/Consistent.antt =====
-- Which exports are accepted (common/src/board_state/identity.rs).
use free_talk.Shared.{
  Bool, true, false, List, [], ◌∷◌, map, Option, none, some, ok, ◌>>◌, >>=-eq-ok, for_each-All,
  All-for_each, ensure, reject, ◌≡◌, ◌↔◌, refl, sym, ap, subst, ◌∙◌, All, All-mono, is_empty, ◌==◌,
  nat_eq, list_eq, if◌then◌else◌, Option-cases, inl, inr, arith,
}
use free_talk.Shared.HashMap
use free_talk.Shared.HashMap.{HashMap}
use free_talk.Model.{
  Bytes, Text, MemberId, VerifyingKey, AuthorizedMember, Crypto, member_id, member_id_from,
}
use free_talk.Member.Chain.{verify_signature}
use free_talk.Identity.Export.{
  IdentityExport, ImportError, empty_token, base58_error, deserialization_error, key_mismatch,
  invalid_member_signature, invalid_chain_signature, Codec, ReadsBackIdentity, payload, vk_by_id,
  check_inviter, or_error, to_armored_string, validate_invite_chain, from_armored_string,
}
use free_talk.Identity.RoundTrip.{from_armored_string-to_armored_string}

module _ (c : Crypto) where
  -- The key of the last member of a list with an identifier, if there is one.
  unfoldable pub last_key :
      MemberId → Option VerifyingKey → List AuthorizedMember → Option VerifyingKey
  last_key id found [] = found
  last_key id found (m ∷ ms) =
      last_key id (if member_id c m == id then some m.member.member_vk else found) ms

  -- The key of an inviter: that of the last chain member with the identifier, or the owner's.
  abbrev pub inviter_key : IdentityExport → MemberId → Option VerifyingKey
  inviter_key e id =
      last_key id (if member_id_from c e.board_owner == id then some e.board_owner else none)
        e.invite_chain

  -- The owner or the chain member who invited the member signed the membership. Where the inviter is
  -- neither, nothing is asked.
  abbrev pub IsSigned : IdentityExport → AuthorizedMember → Type 0
  IsSigned e m =
      (vk : VerifyingKey)
      → inviter_key e m.member.invited_by ≡ some vk
      → verify_signature c m vk ≡ true

  -- The signing key is the member's, and every signature whose signer is known is good.
  pub record IsConsistent (e : IdentityExport) : Type 0 where
    pub own_key : c.verifying_key e.signing_key ≡ e.authorized_member.member.member_vk
    pub member_signed : IsSigned e e.authorized_member
    pub chain_signed : All (IsSigned e) e.invite_chain

  get-extend :
      (id : MemberId) (vks : HashMap MemberId VerifyingKey) (ms : List AuthorizedMember)
      → HashMap.get id (HashMap.extend vks (map (λ m. (member_id c m, m.member.member_vk)) ms))
        ≡ last_key id (HashMap.get id vks) ms
  unfolding last_key
  get-extend id vks [] = refl
  get-extend id vks (m ∷ ms) =
      get-extend id (HashMap.insert (member_id c m) m.member.member_vk vks) ms
      ∙ ap (λ found. last_key id found ms)
          (HashMap.get-insert (member_id c m) id m.member.member_vk vks)

  get-vk_by_id :
      (k : Codec) (e : IdentityExport) (id : MemberId)
      → HashMap.get id (vk_by_id c k e) ≡ inviter_key e id
  unfolding vk_by_id
  get-vk_by_id k e id = get-extend id _ e.invite_chain

  module _ (k : Codec) (e : IdentityExport) (failure : ImportError) (m : AuthorizedMember) where
    check-IsSigned : check_inviter c k failure (vk_by_id c k e) m ≡ ok tt → IsSigned e m
    check-IsSigned h vk found =
        let got = get-vk_by_id k e m.member.invited_by ∙ found in
        signed (rw (got, check_inviter) at h)
      where
        signed : ensure (verify_signature c m vk) failure ≡ ok tt → verify_signature c m vk ≡ true
        signed h = ground arith

    IsSigned-check : IsSigned e m → check_inviter c k failure (vk_by_id c k e) m ≡ ok tt
    IsSigned-check h = elim (Option-cases (HashMap.get m.member.invited_by (vk_by_id c k e))) [
      | inl missing ↦ rw (missing, check_inviter) refl
      | inr found ↦
          rw (found.1, check_inviter)
            (rw (h found.0 (sym (get-vk_by_id k e m.member.invited_by) ∙ found.1)) refl)
    ]

  module _ (k : Codec) where
    validated :
        (e : IdentityExport)
        → validate_invite_chain c k e ≡ ok tt
        → IsSigned e e.authorized_member × All (IsSigned e) e.invite_chain
    unfolding validate_invite_chain
    validated e h =
        let parts =
          >>=-eq-ok
            (check_inviter c k invalid_member_signature (vk_by_id c k e) e.authorized_member) _ h in
        (
          check-IsSigned k e invalid_member_signature e.authorized_member (cc (parts.1)),
          All-mono _ _ e.invite_chain (check-IsSigned k e invalid_chain_signature)
              (for_each-All _ e.invite_chain parts.2),
        )

    validates : (e : IdentityExport) → IsConsistent e → validate_invite_chain c k e ≡ ok tt
    unfolding validate_invite_chain
    validates e a =
        rw (IsSigned-check k e invalid_member_signature e.authorized_member a.member_signed) (
          All-for_each _ e.invite_chain (
            All-mono _ _ e.invite_chain (IsSigned-check k e invalid_chain_signature)
              a.chain_signed))

    checked :
        (e e' : IdentityExport)
        → (ensure
              (c.verifying_key e.signing_key == e.authorized_member.member.member_vk)
              key_mismatch
            >> (validate_invite_chain c k e >> ok e))
          ≡ ok e'
        → IsConsistent e × (e ≡ e')
    checked e e' h =
        let own =
          >>=-eq-ok
            (ensure (c.verifying_key e.signing_key == e.authorized_member.member.member_vk)
              key_mismatch)
            _ h in
        let rest = >>=-eq-ok (validate_invite_chain c k e) _ own.2 in
        let signed = validated e (cc (rest.1)) in
        (
          record {
            own_key = (list_eq.is_eq_iff _ _).0 (ensured _ own.1);
            member_signed = signed.0;
            chain_signed = signed.1;
          },
          cc (rest.2),
        )
      where
        ensured : (b : Bool) {v : Unit {0}} → ensure b key_mismatch ≡ ok v → b ≡ true
        ensured true h = refl
        ensured false h = cc

    -- The payload of the text is not empty, and decodes to the export.
    pub record Decodes (s : Text) (e : IdentityExport) : Type 0 where
      pub some_text : is_empty (payload s) ≡ false
      pub bytes : Bytes
      pub decoded : k.bs58_decode (payload s) ≡ some bytes
      pub read : k.from_reader bytes ≡ some e

    -- A text is imported as an export exactly when its payload is not empty and decodes to the export,
    -- and the export is consistent: the signing key is the member's, and the member and each of the
    -- chain are signed by their inviter, where this is the owner or one of the chain. A membership with any
    -- other inviter is imported whatever its signature is.
    pub from_armored_string_iff :
        (s : Text) (e : IdentityExport)
        → (from_armored_string c k s ≡ ok e) ↔ (Decodes s e × IsConsistent e)
    unfolding from_armored_string
    from_armored_string_iff s e = (
      (λ h.
          let some_text = >>=-eq-ok (reject (is_empty (payload s)) empty_token) _ h in
          let decoded =
            >>=-eq-ok (or_error c k base58_error (k.bs58_decode (payload s))) _ some_text.2 in
          let export =
            >>=-eq-ok (or_error c k deserialization_error (k.from_reader decoded.0)) _ decoded.2 in
          let parts = checked export.0 e export.2 in
          (
            record {
              some_text = rejected (is_empty (payload s)) some_text.1;
              bytes = decoded.0;
              decoded = got base58_error (k.bs58_decode (payload s)) decoded.0 decoded.1;
              read =
                  got deserialization_error (k.from_reader decoded.0) export.0 export.1
                  ∙ ap some parts.1;
            },
            subst IsConsistent parts.1 parts.0,
          )),
      (λ (d, a).
          rw
            (
              from_armored_string,
              d.some_text,
              d.decoded,
              d.read,
              (list_eq.is_eq_iff _ _).1 a.own_key,
              validates e a,
            )
            refl),
    )
      where
        rejected : (b : Bool) {v : Unit {0}} → reject b empty_token ≡ ok v → b ≡ false
        rejected false h = refl
        rejected true h = cc

        got :
            {A : Type 0} (failure : ImportError) (o : Option A) (a : A)
            → or_error c k failure o ≡ ok a
            → o ≡ some a
        got failure none a h = cc
        got failure (some x) a h = ap some (cc h)

    -- An export that the codec reads back as it was written is imported again, as it was, exactly when it
    -- is consistent: the signing key is the member's, and the member and each of the chain are signed by
    -- their inviter, where this is the owner or one of the chain. A membership with any other inviter is
    -- imported whatever its signature is.
    pub import_export_iff :
        (e : IdentityExport)
        → ReadsBackIdentity k e
        → (from_armored_string c k (to_armored_string c k e) ≡ ok e) ↔ IsConsistent e
    import_export_iff e reads = (
      λ h. (checked e e (sym (from_armored_string-to_armored_string c k e reads) ∙ h)).0,
      λ a.
          from_armored_string-to_armored_string c k e reads
          ∙ rw ((list_eq.is_eq_iff _ _).1 a.own_key) (rw (validates e a) refl),
    )
