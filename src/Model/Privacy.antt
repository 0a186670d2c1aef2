-- ===== src/Model/Privacy.antt =====
-- common/src/board_state/privacy.rs, and the words that all records use. A string is the list of
-- its UTF-8 bytes. Keys and signatures are their bytes. A `FastHash` is an `i64`: it is held
-- as its value plus 2^63, which keeps its order. A `SystemTime` counts from a fixed time.
use Prim.Native.Char.{code}
use Prim.Native.String.{String}
use free_talk.Shared.{ℕ, Bool, true, false, List, [], ◌∷◌, Option, none, some, length, ◌&&◌, ◌^◌}
use mathlib.Core.Option

abbrev pub Bytes : Type 0
Bytes = List ℕ

abbrev pub Text : Type 0
Text = List ℕ

-- An ASCII literal.
abbrev pub ascii : String → Text
ascii String.[] = []
ascii (String.◌∷◌ letter rest) = code letter ∷ ascii rest

abbrev pub VerifyingKey : Type 0
VerifyingKey = Bytes

abbrev pub SigningKey : Type 0
SigningKey = Bytes

abbrev pub Signature : Type 0
Signature = Bytes

abbrev pub FastHash : Type 0
FastHash = ℕ

-- `FastHash(0)`
abbrev pub zero_hash : FastHash
zero_hash = 2 ^ 63

abbrev pub MemberId : Type 0
MemberId = FastHash

abbrev pub BanId : Type 0
BanId = FastHash

abbrev pub MessageId : Type 0
MessageId = FastHash

abbrev pub SystemTime : Type 0
SystemTime = ℕ

abbrev pub SecretVersion : Type 0
SecretVersion = ℕ

pub data PrivacyMode : Type 0 where
  public private : PrivacyMode

pub data BoardCipherSpec : Type 0 where
  aes256_gcm : BoardCipherSpec

pub data SealedBytes : Type 0 where
  public : (value : Bytes) → SealedBytes
  private :
      (ciphertext nonce : Bytes) (secret_version : SecretVersion) (declared_len_bytes : ℕ)
      → SealedBytes

unfoldable pub is_public : SealedBytes → Bool
is_public (SealedBytes.public value) = true
is_public (SealedBytes.private c n v l) = false

unfoldable pub is_private : SealedBytes → Bool
is_private (SealedBytes.public value) = false
is_private (SealedBytes.private c n v l) = true

unfoldable pub declared_len : SealedBytes → ℕ
declared_len (SealedBytes.public value) = length value
declared_len (SealedBytes.private c n v l) = l

unfoldable pub secret_version : SealedBytes → Option SecretVersion
secret_version (SealedBytes.public value) = none
secret_version (SealedBytes.private c n v l) = some v

unfoldable pub as_public_bytes : SealedBytes → Option Bytes
as_public_bytes (SealedBytes.public value) = some value
as_public_bytes (SealedBytes.private c n v l) = none

pub record BoardDisplayMetadata : Type 0 where
  pub name : SealedBytes
  pub description : Option SealedBytes

-- `BoardDisplayMetadata::public`
unfoldable pub public_metadata : Text → Option Text → BoardDisplayMetadata
public_metadata name description = record {
  name = SealedBytes.public name;
  description = Option.map SealedBytes.public description;
}

seal : SecretVersion → Bytes × Bytes × ℕ → SealedBytes
seal secret_version (ciphertext, nonce, declared_len) =
    SealedBytes.private ciphertext nonce secret_version declared_len

-- `BoardDisplayMetadata::private`
unfoldable pub private_metadata :
    Bytes → Bytes → ℕ → Option (Bytes × Bytes × ℕ) → SecretVersion → BoardDisplayMetadata
unfolding seal
private_metadata name_ciphertext name_nonce name_declared_len description secret_version = record {
  name = SealedBytes.private name_ciphertext name_nonce secret_version name_declared_len;
  description = Option.map (seal secret_version) description;
}

option_is_public : Option SealedBytes → Bool
unfolding is_public
option_is_public none = true
option_is_public (some d) = is_public d

-- `BoardDisplayMetadata::is_public`
unfoldable pub metadata_is_public : BoardDisplayMetadata → Bool
unfolding is_public option_is_public
metadata_is_public m = is_public m.name && option_is_public m.description
