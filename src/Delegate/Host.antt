-- ===== src/Delegate/Host.antt =====
-- What the delegate calls and does not implement: the secret store of the host (`DelegateCtx`), and
-- the formats of bs58, ciborium and `String::from_utf8_lossy`. A law says what they document.
use free_talk.Shared.{
  Bool, true, false, Option, none, some, ◌≡◌, ◌≢◌, Result, ok, err, All, ◌==◌, list_eq, nat_eq,
  if◌then◌else◌,
}
use free_talk.Model.{Bytes, Text}
use free_talk.Delegate.Messages.{
  ChatDelegateRequestMsg, ChatDelegateResponseMsg, DelegateError, KeyIndex,
}

pub record Host : Type 1 where
  pub DelegateCtx : Type 0
  pub get_secret : DelegateCtx → Bytes → Option Bytes
  -- The store after the write, and whether the host took it.
  pub set_secret : DelegateCtx → Bytes → Bytes → DelegateCtx × Bool
  pub remove_secret : DelegateCtx → Bytes → DelegateCtx

-- A write that is taken is read back and changes nothing else; one that is refused changes nothing.
pub record StoresSecrets (h : Host) : Type 0 where
  pub get-set_taken :
      (s : h.DelegateCtx) (k v j : Bytes)
      → (h.set_secret s k v).1 ≡ true
      → h.get_secret (h.set_secret s k v).0 j ≡ (if k == j then some v else h.get_secret s j)
  pub get-set_refused :
      (s : h.DelegateCtx) (k v j : Bytes)
      → (h.set_secret s k v).1 ≡ false
      → h.get_secret (h.set_secret s k v).0 j ≡ h.get_secret s j
  pub get-remove :
      (s : h.DelegateCtx) (k j : Bytes)
      → h.get_secret (h.remove_secret s k) j ≡ (if k == j then none else h.get_secret s j)

-- The host takes every write.
abbrev pub TakesWrites : Host → Type 0
TakesWrites h = (s : h.DelegateCtx) (k v : Bytes) → (h.set_secret s k v).1 ≡ true

pub record Formats : Type 0 where
  pub bs58_encode : Bytes → Text
  pub from_utf8_lossy : Bytes → Text
  pub write_index : KeyIndex → Option Bytes
  pub read_index : Bytes → Option KeyIndex
  pub write_response : ChatDelegateResponseMsg → Option Bytes
  pub read_request : Bytes → Option ChatDelegateRequestMsg

-- The alphabet of base 58 has neither a colon nor an underscore.
abbrev pub IsBase58 : Text → Type 0
IsBase58 t = All (λ ch. (ch ≢ b':') × (ch ≢ b'_')) t

pub record EncodesNames (f : Formats) : Type 0 where
  pub bs58_injective : (a b : Bytes) → f.bs58_encode a ≡ f.bs58_encode b → a ≡ b
  pub bs58-IsBase58 : (a : Bytes) → IsBase58 (f.bs58_encode a)

-- Writing an index to a vector does not fail, and an index is read as it was written.
abbrev pub WritesIndex : Formats → Type 0
WritesIndex f =
    (keys : KeyIndex) → (b : Bytes) × (f.write_index keys ≡ some b) × (f.read_index b ≡ some keys)

-- A computation that changes a state, also where it fails.
abbrev pub Run : Type 0 → Type 0 → Type 0
Run S A = S → S × Result DelegateError A

module _ {S : Type 0} where
  abbrev pub and_then :
      {A B : Type 0} → S × Result DelegateError A → (A → Run S B) → S × Result DelegateError B
  and_then (after, ok a) next = next a after
  and_then (after, err e) next = (after, err e)

  infixl 5 ◌>>=◌ ◌>>◌
  abbrev pub ◌>>=◌ : {A B : Type 0} → Run S A → (A → Run S B) → Run S B
  ◌>>=◌ m next s = and_then (m s) next

  abbrev pub ◌>>◌ : {B : Type 0} → Run S (Unit {0}) → Run S B → Run S B
  m >> rest = m >>= λ done. rest

  abbrev pub answers : {A : Type 0} → Result DelegateError A → Run S A
  answers r s = (s, r)

-- `into_writer`, with its error
abbrev pub written : DelegateError → Option Bytes → Result DelegateError Bytes
written unwritten none = err unwritten
written unwritten (some b) = ok b

module _ (h : Host) where
  abbrev pub M : Type 0 → Type 0
  M A = Run h.DelegateCtx A

  -- `if !ctx.set_secret(k, v) { return Err(e) }`
  abbrev pub set_secret : DelegateError → Bytes → Bytes → M (Unit {0})
  set_secret refused k v ctx =
      let (after, taken) = h.set_secret ctx k v in (after, if taken then ok tt else err refused)

  abbrev pub get_secret : Bytes → M (Option Bytes)
  get_secret k ctx = (ctx, ok (h.get_secret ctx k))

  abbrev pub remove_secret : Bytes → M (Unit {0})
  remove_secret k ctx = (h.remove_secret ctx k, ok tt)
