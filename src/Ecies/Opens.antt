-- ===== src/Ecies/Opens.antt =====
-- What is encrypted is read back (ui/src/util/ecies.rs).
use free_talk.Shared.{none, some, ok, err, length, nat_eq, ◌≡◌, refl}
use free_talk.Shared.HashMap
use free_talk.Shared.HashMap.{HashMap}
use free_talk.Model.{Crypto, Bytes, SigningKey, SecretVersion}
use free_talk.Ecies.{
  Ciphers, Random, version_not_available, ed25519_to_x25519_public_key,
  ed25519_to_x25519_private_key, encrypt, decrypt, encrypt_secret_for_member,
  decrypt_secret_from_member_blob, encrypt_with_symmetric_key, decrypt_with_symmetric_key,
  seal_bytes, unseal_bytes_with_secrets,
}

-- What the crates promise: both sides of an exchange of keys agree, where a member's keys are those of
-- ed25519, and AES-GCM opens what it sealed.
pub record AreCiphers (k : Crypto) (c : Ciphers) : Type 0 where
  pub agree :
      (sk : SigningKey) (ephemeral : Bytes)
      → c.diffie_hellman (ed25519_to_x25519_private_key c sk) (c.public_key ephemeral)
        ≡ c.diffie_hellman ephemeral (c.to_montgomery (k.verifying_key sk))
  pub opens :
      (key nonce plaintext : Bytes)
      → c.aes_decrypt key nonce (c.aes_encrypt key nonce plaintext) ≡ some plaintext

module _ (k : Crypto) (c : Ciphers) (h : AreCiphers k c) where
  decrypt-encrypt :
      (random : Random) (sk : SigningKey) (plaintext : Bytes)
      → let blob = encrypt c random (k.verifying_key sk) plaintext in
        decrypt c sk blob.ephemeral_key blob.ciphertext blob.nonce ≡ some plaintext
  unfolding encrypt decrypt ed25519_to_x25519_public_key
  decrypt-encrypt random sk plaintext =
      rw (encrypt, decrypt, ed25519_to_x25519_public_key, h.agree sk random.ephemeral)
        (h.opens _ random.nonce plaintext)

  -- A secret of 32 bytes that is encrypted for a member is read back with the member's own key,
  -- whatever was drawn for the encryption.
  pub decrypt-encrypt_secret :
      (random : Random) (sk : SigningKey) (secret : Bytes)
      → length secret ≡ 32
      → let blob = encrypt_secret_for_member c random secret (k.verifying_key sk) in
        decrypt_secret_from_member_blob c blob.ciphertext blob.nonce blob.ephemeral_key sk
        ≡ some (ok secret)
  unfolding encrypt_secret_for_member decrypt_secret_from_member_blob
  decrypt-encrypt_secret random sk secret l =
      rw
        (
          decrypt_secret_from_member_blob,
          encrypt_secret_for_member,
          decrypt-encrypt random sk secret,
          l,
        )
        refl

  -- Where the ciphers do what they promise, what is sealed with the secret of a version is unsealed
  -- by everyone who has that secret for the version, and anyone who has no secret of the version is
  -- told which one is missing.
  pub unseal_bytes_with_secrets_lem :
      (nonce plaintext secret : Bytes) (version : SecretVersion)
      (secrets : HashMap SecretVersion Bytes)
      → (HashMap.get version secrets ≡ some secret
          → unseal_bytes_with_secrets c (seal_bytes c nonce plaintext secret version) secrets
            ≡ ok plaintext)
        × (HashMap.get version secrets ≡ none
            → unseal_bytes_with_secrets c (seal_bytes c nonce plaintext secret version) secrets
              ≡ err (version_not_available version))
  unfolding unseal_bytes_with_secrets seal_bytes encrypt_with_symmetric_key
      decrypt_with_symmetric_key
  unseal_bytes_with_secrets_lem nonce plaintext secret version secrets = (
    (λ there.
        rw
          (
            unseal_bytes_with_secrets,
            seal_bytes,
            there,
            decrypt_with_symmetric_key,
            h.opens secret nonce plaintext,
          )
          refl),
    (λ absent. rw (unseal_bytes_with_secrets, seal_bytes, absent) refl),
  )
