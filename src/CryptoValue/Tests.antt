-- ===== src/CryptoValue/Tests.antt =====
-- Examples for common/src/crypto_values.rs, with bytes one higher for base 58.
use free_talk.Shared.{
  ℕ, ◌+◌, ◌-◌, true, [], ◌∷◌, map, Option, none, some, ok, ◌≡◌, ◌≢◌, ◌↔◌, refl, All, length, arith,
  leb, list_eq, nat_eq, if◌then◌else◌,
}
use free_talk.Model.{Bytes, Text}
use free_talk.CryptoValue.{signing_key, Codec, IsBase58, to_encoded_string, from_encoded_string}
use free_talk.CryptoValue.Encoding.{from_encoded_string_iff}

abbrev higher : Bytes → Text
higher b = map (λ (x : ℕ). x + 100) b

-- The bytes, if all characters are high enough.
abbrev lower : Text → Option Bytes
lower [] = some []
lower (ch ∷ s) = elim (lower s) [
  | none ↦ none
  | some b ↦ if leb 100 ch then some ((ch - 100) ∷ b) else none
]

abbrev plain : Codec
plain = record { bs58_encode = higher; bs58_decode = lower; is_point = λ b. true }

lower-higher : (b : Bytes) → lower (higher b) ≡ some b
lower-higher [] = refl
lower-higher (x ∷ b) = rw (lower-higher b) (ground arith)

higher_of_lower : (t : Text) (b : Bytes) → lower t ≡ some b → t ≡ higher b
higher_of_lower [] [] h = refl
higher_of_lower [] (x ∷ b) h = cc
higher_of_lower (ch ∷ t) [] h = ground arith
higher_of_lower (ch ∷ t) (x ∷ b) h = ground (arith, higher_of_lower t b)

no_colon : (b : Bytes) → All (λ ch. ch ≢ b':') (higher b)
no_colon [] = tt
no_colon (x ∷ b) = (λ e. absurd (omega arith), no_colon b)

plain-IsBase58 : IsBase58 plain
plain-IsBase58 = record {
  decode_iff = λ t b. (higher_of_lower t b, λ e. rw e (lower-higher b));
  encode_no_colon = no_colon;
}

abbrev key : Bytes
key =
    1 ∷ 2 ∷ 3 ∷ 4 ∷ 5 ∷ 6 ∷ 7 ∷ 8 ∷ 1 ∷ 2 ∷ 3 ∷ 4 ∷ 5 ∷ 6 ∷ 7 ∷ 8 ∷ 1 ∷ 2 ∷ 3 ∷ 4 ∷ 5 ∷ 6 ∷ 7 ∷ 8
    ∷ 1 ∷ 2 ∷ 3 ∷ 4 ∷ 5 ∷ 6 ∷ 7 ∷ 8 ∷ []

from_encoded_string_iff_example :
    (from_encoded_string plain (to_encoded_string plain (signing_key key)) ≡ ok (signing_key key))
    ↔ ((length key ≡ 32)
        × (to_encoded_string plain (signing_key key) ≡ to_encoded_string plain (signing_key key)))
from_encoded_string_iff_example =
    from_encoded_string_iff plain plain-IsBase58 (to_encoded_string plain (signing_key key))
      (signing_key key)
