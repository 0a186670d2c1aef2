-- ===== src/Ecies.antt =====
-- ui/src/util/ecies.rs: a board's secret for one member, and what is sealed with the secret. The crates
-- that the file calls are the parameter `Ciphers`: curve25519-dalek, x25519-dalek, sha2 and aes-gcm. What
-- `OsRng` and `rand::random` draw is the argument `random`, and a call of `expect` that panics is `none`.
pub mod Opens
pub mod Toy
mod Tests
use Prim.Native.Nat.{◌%◌}
use free_talk.Shared.{
  ℕ, ◌+◌, ◌-◌, ◌^◌, List, [], ◌∷◌, Option, none, some, Result, ok, err, length, take, if◌then◌else◌,
  ◌==◌, nat_eq, ◌≡◌, ensure, ◌>>◌,
}
use free_talk.Shared.HashMap
use free_talk.Shared.HashMap.{HashMap}
use free_talk.Model.{Bytes, SigningKey, VerifyingKey, SecretVersion, SealedBytes}

pub record Ciphers : Type 0 where
  -- `CompressedEdwardsY(pk).decompress()` and `to_montgomery`, of a verifying key
  pub to_montgomery : VerifyingKey → Bytes
  -- `X25519PublicKey::from` of a secret
  pub public_key : Bytes → Bytes
  pub diffie_hellman : (private public : Bytes) → Bytes
  pub sha256 : Bytes → Bytes
  pub sha512 : Bytes → Bytes
  -- `Aes256Gcm`, with a key and a nonce
  pub aes_encrypt : (key nonce plaintext : Bytes) → Bytes
  pub aes_decrypt : (key nonce ciphertext : Bytes) → Option Bytes

-- What one encryption draws: the ephemeral secret and the nonce.
pub record Random : Type 0 where
  pub ephemeral : Bytes
  pub nonce : Bytes

pub record Blob : Type 0 where
  pub ciphertext : Bytes
  pub nonce : Bytes
  pub ephemeral_key : Bytes

pub data UnsealError : Type 0 where
  secret_key_required : UnsealError
  decryption_failed : UnsealError
  version_not_available : SecretVersion → UnsealError
  invalid_length : ℕ → UnsealError

-- `key[31] &= 127; key[31] |= 64`, of the last byte of all
unfoldable pub clamp_last : Bytes → Bytes
clamp_last [] = []
clamp_last (last ∷ []) = (last % 64 + 64) ∷ []
clamp_last (byte ∷ next ∷ rest) = byte ∷ clamp_last (next ∷ rest)

-- `key[0] &= 248` and the change of the last byte
unfoldable pub clamp : Bytes → Bytes
unfolding clamp_last
clamp [] = []
clamp (first ∷ rest) = (first - first % 8) ∷ clamp_last rest

module _ (c : Ciphers) where
  unfoldable pub ed25519_to_x25519_public_key : VerifyingKey → Bytes
  ed25519_to_x25519_public_key ed25519_pk = c.to_montgomery ed25519_pk

  unfoldable pub ed25519_to_x25519_private_key : SigningKey → Bytes
  unfolding clamp
  ed25519_to_x25519_private_key ed25519_sk = clamp (take 32 (c.sha512 ed25519_sk))

  unfoldable pub encrypt : Random → VerifyingKey → Bytes → Blob
  unfolding ed25519_to_x25519_public_key
  encrypt random recipient_public_key plaintext =
      let shared_secret =
        c.diffie_hellman random.ephemeral (ed25519_to_x25519_public_key recipient_public_key) in
      let symmetric_key = c.sha256 shared_secret in
      record {
        ciphertext = c.aes_encrypt symmetric_key random.nonce plaintext;
        nonce = random.nonce;
        ephemeral_key = c.public_key random.ephemeral;
      }

  unfoldable pub decrypt : SigningKey → (sender_public_key ciphertext nonce : Bytes) → Option Bytes
  unfolding ed25519_to_x25519_private_key
  decrypt recipient_private_key sender_public_key ciphertext nonce =
      let shared_secret =
        c.diffie_hellman (ed25519_to_x25519_private_key recipient_private_key) sender_public_key in
      let symmetric_key = c.sha256 shared_secret in c.aes_decrypt symmetric_key nonce ciphertext

  unfoldable pub encrypt_with_symmetric_key :
      (nonce : Bytes) → (key plaintext : Bytes) → Bytes × Bytes
  encrypt_with_symmetric_key nonce key plaintext = (c.aes_encrypt key nonce plaintext, nonce)

  unfoldable pub decrypt_with_symmetric_key :
      (key ciphertext nonce : Bytes) → Result UnsealError Bytes
  decrypt_with_symmetric_key key ciphertext nonce = elim (c.aes_decrypt key nonce ciphertext) [
    | none ↦ err decryption_failed
    | some plaintext ↦ ok plaintext
  ]

  unfoldable pub encrypt_secret_for_member : Random → (secret : Bytes) → VerifyingKey → Blob
  unfolding encrypt
  encrypt_secret_for_member random secret member_public_key =
      encrypt random member_public_key secret

  unfoldable pub decrypt_secret_from_member_blob :
      (ciphertext nonce ephemeral_sender_key : Bytes)
      → SigningKey
      → Option (Result UnsealError Bytes)
  unfolding decrypt
  decrypt_secret_from_member_blob ciphertext nonce ephemeral_sender_key member_private_key =
      elim (decrypt member_private_key ephemeral_sender_key ciphertext nonce) [
        | none ↦ none
        | some decrypted ↦
            some
              (ensure (length decrypted == 32) (invalid_length (length decrypted)) >> ok decrypted)
      ]

  unfoldable pub seal_bytes :
      (nonce : Bytes) → (plaintext secret_key : Bytes) → SecretVersion → SealedBytes
  unfolding encrypt_with_symmetric_key
  seal_bytes nonce plaintext secret_key secret_version =
      let (ciphertext, nonce') = encrypt_with_symmetric_key nonce secret_key plaintext in
      SealedBytes.private ciphertext nonce' secret_version (length plaintext % 2 ^ 32)

  unfoldable pub unseal_bytes : SealedBytes → (secret_key : Option Bytes) → Result UnsealError Bytes
  unfolding decrypt_with_symmetric_key
  unseal_bytes (SealedBytes.public value) secret_key = ok value
  unseal_bytes (SealedBytes.private ciphertext nonce v l) none = err secret_key_required
  unseal_bytes (SealedBytes.private ciphertext nonce v l) (some key) =
      decrypt_with_symmetric_key key ciphertext nonce

  unfoldable pub unseal_bytes_with_secrets :
      SealedBytes → HashMap SecretVersion Bytes → Result UnsealError Bytes
  unfolding decrypt_with_symmetric_key
  unseal_bytes_with_secrets (SealedBytes.public value) secrets = ok value
  unseal_bytes_with_secrets (SealedBytes.private ciphertext nonce secret_version l) secrets =
      elim (HashMap.get secret_version secrets) [
        | none ↦ err (version_not_available secret_version)
        | some key ↦ decrypt_with_symmetric_key key ciphertext nonce
      ]
