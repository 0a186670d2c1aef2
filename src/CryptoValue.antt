-- ===== src/CryptoValue.antt =====
-- common/src/crypto_values.rs: keys and signatures as texts. The format of bs58, and which bytes are
-- the point of a verifying key (ed25519-dalek), are parameters.
pub mod Encoding
mod Tests
use free_talk.Shared.{
  ℕ, Bool, true, false, ◌&&◌, List, [], ◌∷◌, ◌++◌, Option, none, some, Result, ok, err, ◌>>=◌, ◌>>◌,
  ensure, reject, length, ◌==◌, list_eq, nat_eq, if◌then◌else◌, ◌≡◌, ◌≢◌, ◌↔◌, All,
}
use free_talk.Model.{Bytes, Text, ascii, VerifyingKey, SigningKey, Signature}

pub data CryptoValue : Type 0 where
  verifying_key : (key : VerifyingKey) → CryptoValue
  signing_key : (key : SigningKey) → CryptoValue
  signature : (bytes : Signature) → CryptoValue

-- The texts of the errors.
pub data ParseError : Type 0 where
  invalid_format base58_error invalid_verifying_key_length invalid_verifying_key : ParseError
  invalid_signing_key_length invalid_signature_length unknown_key_type invalid_key_length :
      ParseError

pub record Codec : Type 0 where
  pub bs58_encode : Bytes → Text
  pub bs58_decode : Text → Option Bytes
  -- `VerifyingKey::from_bytes` succeeds.
  pub is_point : Bytes → Bool

-- A text of base 58 is decoded exactly if it is the encoding of the bytes, and it has no colon.
pub record IsBase58 (k : Codec) : Type 0 where
  pub decode_iff : (t : Text) (b : Bytes) → (k.bs58_decode t ≡ some b) ↔ (t ≡ k.bs58_encode b)
  pub encode_no_colon : (b : Bytes) → All (λ ch. ch ≢ b':') (k.bs58_encode b)

abbrev pub version_prefix : Text
version_prefix = ascii "river:v1"

abbrev pub push : ℕ → List Text → List Text
push ch [] = (ch ∷ []) ∷ []
push ch (part ∷ rest) = (ch ∷ part) ∷ rest

-- `split(':')`
unfoldable pub split : Text → List Text
split [] = [] ∷ []
split (ch ∷ s) = let rest = split s in if ch == b':' then [] ∷ rest else push ch rest

unfoldable pub type_str : CryptoValue → Text
type_str (verifying_key key) = ascii "vk"
type_str (signing_key key) = ascii "sk"
type_str (signature bytes) = ascii "sig"

unfoldable pub key_bytes : CryptoValue → Bytes
key_bytes (verifying_key key) = key
key_bytes (signing_key key) = key
key_bytes (signature bytes) = bytes

unfoldable pub starts_with : Text → Text → Bool
starts_with [] s = true
starts_with (ch ∷ start) [] = false
starts_with (ch ∷ start) (other ∷ s) = ch == other && starts_with start s

module _ (k : Codec) where
  unfoldable pub to_encoded_string : CryptoValue → Text
  unfolding type_str key_bytes
  to_encoded_string self =
      version_prefix ++ (b':' ∷ (type_str self ++ (b':' ∷ k.bs58_encode (key_bytes self))))

  abbrev pub decoded : Text → Result ParseError Bytes
  decoded t = elim (k.bs58_decode t) [ none ↦ err base58_error | some b ↦ ok b ]

  -- The `match` on the type of `from_encoded_string`.
  unfoldable pub value_of : Text → Bytes → Result ParseError CryptoValue
  value_of type_part bytes =
      if type_part == ascii "vk"
      then ensure (length bytes == 32) invalid_verifying_key_length
        >> (ensure (k.is_point bytes) invalid_verifying_key >> ok (verifying_key bytes))
      else if type_part == ascii "sk"
      then ensure (length bytes == 32) invalid_signing_key_length >> ok (signing_key bytes)
      else if type_part == ascii "sig"
      then ensure (length bytes == 64) invalid_signature_length >> ok (signature bytes)
      else err unknown_key_type

  unfoldable pub from_parts : List Text → Result ParseError CryptoValue
  unfolding value_of
  from_parts (name ∷ version ∷ type_part ∷ encoded ∷ []) = do
    ensure (name ++ (b':' ∷ version) == version_prefix) invalid_format
    bytes ← decoded encoded
    value_of type_part bytes
  from_parts _ = err invalid_format

  unfoldable pub from_encoded_string : Text → Result ParseError CryptoValue
  unfolding from_parts split
  from_encoded_string s = from_parts (split s)

  unfoldable pub from_str : Text → Result ParseError CryptoValue
  unfolding from_encoded_string starts_with
  from_str s =
      if starts_with version_prefix s
      then from_encoded_string s
      else (decoded s >>= λ bytes.
          ensure (length bytes == 32) invalid_key_length >> ok (signing_key bytes))
