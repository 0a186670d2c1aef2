-- ===== src/BoardData/Read.antt =====
-- What a member reads of the secrets that `rotate_secret` of ui/src/board_data.rs makes.
use free_talk.Shared.{
  ◌+◌, ◌^◌, List, [], ◌∷◌, Option, none, some, Option-cases, Result, ok, err, ◌>>◌, reject, not,
  is_empty, length, find, All, ◌==◌, nat_eq, list_eq, Bool-cases, inl, inr, ◌≡◌, sym, ap, subst,
}
use Prim.Native.Nat.{◌%◌}
use free_talk.Model.{
  Crypto, Bytes, SigningKey, VerifyingKey, MemberId, SystemTime, SecretVersion, AuthorizedMember,
  AuthorizedEncryptedSecretForMember, SecretsDelta, member_id, member_id_from,
}
use free_talk.Ecies.{Ciphers, Random, decrypt_secret_from_member_blob, encrypt_secret_for_member}
use free_talk.Ecies.Opens.{AreCiphers, decrypt-encrypt_secret}
use free_talk.Secret.{new_encrypted_secret}
use free_talk.BoardData.{
  BoardData, RotateError, public_board, not_the_owner, no_members, is_private,
}
use free_talk.BoardData.Secrets.{secrets_for, current_members, rotate_secret}

find_holds :
    (c : Crypto) (P : AuthorizedMember → Type 0) (members : List AuthorizedMember) (id : MemberId)
    (m : AuthorizedMember)
    → All (λ m. member_id c m ≡ id → P m) members
    → find (λ m. member_id c m == id) members ≡ some m
    → P m
find_holds c P [] id m h e = cc
find_holds c P (x ∷ members) id m h e = elim (Bool-cases (member_id c x == id)) [
  | inl here ↦
      let shown : ◌≡◌ {A = Option AuthorizedMember} (some x) (some m) = rw here at e in
      let same : x ≡ m = ap (λ o. elim o [ none ↦ x | some y ↦ y ]) shown in
      subst P same (h.0 ((nat_eq.is_eq_iff (member_id c x) id).0 here))
  | inr later ↦ find_holds c P members id m h.1 (rw later at e)
]

module _ (c : Crypto) (k : Ciphers) (random : VerifyingKey → Random) (self : BoardData)
    (secret : Bytes) where
  -- The secret is read with the key from one that is for the key's member.
  abbrev pub IsReadBy : SigningKey → AuthorizedEncryptedSecretForMember → Type 0
  IsReadBy sk x =
      x.secret.member_id ≡ member_id_from c (c.verifying_key sk)
      → decrypt_secret_from_member_blob k x.secret.ciphertext x.secret.nonce
          x.secret.sender_ephemeral_public_key sk
        ≡ some (ok secret)

  secrets_for-IsReadBy :
      (version : SecretVersion) (sk : SigningKey) (ids : List MemberId)
      → AreCiphers c k
      → length secret ≡ 32
      → All
          (λ m.
            member_id c m ≡ member_id_from c (c.verifying_key sk)
            → m.member.member_vk ≡ c.verifying_key sk)
          self.board_state.members
      → All (IsReadBy sk) (secrets_for c k random secret version self ids)
  unfolding secrets_for new_encrypted_secret
  secrets_for-IsReadBy version sk [] ciphers long keys = tt
  secrets_for-IsReadBy version sk (id ∷ ids) ciphers long keys =
      let rest = secrets_for-IsReadBy version sk ids ciphers long keys in
      elim (Option-cases (find (λ m. member_id c m == id) self.board_state.members)) [
        | inl none_there ↦ rw (secrets_for, none_there) rest
        | inr found ↦
            rw (secrets_for, found.1, new_encrypted_secret)
              ((λ own. reads found.0 found.1 own), rest)
      ]
    where
      reads :
          (m : AuthorizedMember)
          → find (λ m. member_id c m == id) self.board_state.members ≡ some m
          → id ≡ member_id_from c (c.verifying_key sk)
          → let blob =
              encrypt_secret_for_member k (random m.member.member_vk) secret m.member.member_vk in
            decrypt_secret_from_member_blob k blob.ciphertext blob.nonce blob.ephemeral_key sk
            ≡ some (ok secret)
      reads m e own =
          let key =
            find_holds c (λ m. m.member.member_vk ≡ c.verifying_key sk) self.board_state.members
              (member_id_from c (c.verifying_key sk)) m keys
              (subst (λ i. find (λ m. member_id c m == i) self.board_state.members ≡ some m) own
                e) in
          rw key (decrypt-encrypt_secret c k ciphers (random (c.verifying_key sk)) sk secret long)

  rotated_secrets :
      (now : SystemTime) (d : SecretsDelta)
      → (rotate_secret c k random now secret self).1 ≡ ok d
      → d.new_encrypted_secrets
        ≡ secrets_for c k random secret
            ((self.board_state.secrets.current_version + 1) % 2 ^ 32)
            self
            (current_members c self)
  unfolding rotate_secret
  rotated_secrets now d h =
      by_checks
        (reject (not (is_private self)) public_board
          >> reject (not (self.owner_vk == c.verifying_key self.self_sk)) not_the_owner
          >> reject (is_empty (current_members c self)) no_members)
        _ _ h
    where
      by_checks :
          (checks : Result RotateError (Unit {0})) (after : BoardData) (made : SecretsDelta)
          → (elim checks as (λ _. BoardData × Result RotateError SecretsDelta) [
            | err e ↦ (self, err e)
            | ok checked ↦ (after, ok made)
          ]).1
            ≡ ok d
          → d.new_encrypted_secrets ≡ made.new_encrypted_secrets
      by_checks (err e) after made h = cc
      by_checks (ok checked) after made h =
          ap
            (λ (r : Result RotateError SecretsDelta). elim r [
              | err e ↦ []
              | ok d ↦ d.new_encrypted_secrets
            ])
            (sym h)

  -- With the key of a member, the secret is read from every new secret of a rotation that is for
  -- this member, where the ciphers do what they promise, the secret has 32 bytes, and whoever has
  -- the identifier of the key among the members has this key.
  pub rotate_secret-IsReadBy :
      (now : SystemTime) (d : SecretsDelta) (sk : SigningKey)
      → AreCiphers c k
      → length secret ≡ 32
      → All
          (λ m.
            member_id c m ≡ member_id_from c (c.verifying_key sk)
            → m.member.member_vk ≡ c.verifying_key sk)
          self.board_state.members
      → (rotate_secret c k random now secret self).1 ≡ ok d
      → All (IsReadBy sk) d.new_encrypted_secrets
  rotate_secret-IsReadBy now d sk ciphers long keys h =
      rw (rotated_secrets now d h)
        (secrets_for-IsReadBy _ sk (current_members c self) ciphers long keys)
