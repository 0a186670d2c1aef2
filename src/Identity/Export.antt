-- ===== src/Identity/Export.antt =====
-- `IdentityExport` of common/src/board_state/identity.rs. The formats of bs58 and ciborium are
-- parameters.
use free_talk.Shared.{
  ℕ, false, not, ◌&&◌, List, [], ◌∷◌, ◌++◌, map, Option, none, some, Result, ok, err, ◌>>=◌, ◌>>◌,
  ensure, reject, for_each, retain, is_empty, ◌==◌, list_eq, nat_eq, ◌≡◌, ◌≢◌, All,
}
use free_talk.Shared.HashMap
use free_talk.Shared.HashMap.{HashMap}
use free_talk.Model.{
  Bytes, Text, ascii, MemberId, VerifyingKey, SigningKey, AuthorizedMember, AuthorizedMemberInfo,
  Crypto, member_id, member_id_from,
}
use free_talk.Member.Chain.{verify_signature}
use free_talk.Identity.Text.{lines, trim, starts_with, chunks, concat, is_whitespace}

pub record IdentityExport : Type 0 where
  pub board_owner : VerifyingKey
  pub signing_key : SigningKey
  pub authorized_member : AuthorizedMember
  pub invite_chain : List AuthorizedMember
  pub member_info : Option AuthorizedMemberInfo
  pub board_name : Option Text

-- The texts of `from_armored_string`'s errors.
pub data ImportError : Type 0 where
  empty_token : ImportError
  base58_error : ImportError
  deserialization_error : ImportError
  key_mismatch : ImportError
  invalid_member_signature : ImportError
  invalid_chain_signature : ImportError

-- bs58 and ciborium
pub record Codec : Type 0 where
  pub bs58_encode : Bytes → Text
  pub bs58_decode : Text → Option Bytes
  pub into_writer : IdentityExport → Bytes
  pub from_reader : Bytes → Option IdentityExport

-- A character of an encoded text is no space and no dash.
abbrev pub IsPrinted : ℕ → Type 0
IsPrinted ch = (is_whitespace ch ≡ false) × (ch ≢ b'-')

-- What is written of an export is read back, and its text is not empty.
pub record ReadsBackIdentity (k : Codec) (e : IdentityExport) : Type 0 where
  pub decode-encode : k.bs58_decode (k.bs58_encode (k.into_writer e)) ≡ some (k.into_writer e)
  pub encode-IsPrinted : All IsPrinted (k.bs58_encode (k.into_writer e))
  pub encode_nonempty : is_empty (k.bs58_encode (k.into_writer e)) ≡ false
  pub read-write : k.from_reader (k.into_writer e) ≡ some e

abbrev pub armor_begin : Text
armor_begin = ascii "-----BEGIN FREETALK IDENTITY-----"

abbrev pub armor_end : Text
armor_end = ascii "-----END FREETALK IDENTITY-----"

abbrev pub line_width : ℕ
line_width = 64

-- The chunks, each with a line feed after it.
unfoldable pub push_lines : List Text → Text
push_lines [] = []
push_lines (chunk ∷ rest) = chunk ++ (b'\n' ∷ push_lines rest)

-- The lines that `from_armored_string` keeps, joined.
unfoldable pub payload : Text → Text
unfolding concat
payload s = concat (
    retain (λ line. not (is_empty line) && not (starts_with (ascii "-----") line))
      (map trim (lines s)))

module _ (c : Crypto) (k : Codec) where
  unfoldable pub to_armored_string : IdentityExport → Text
  unfolding push_lines
  to_armored_string self =
      armor_begin
      ++ (b'\n'
          ∷ (push_lines (chunks line_width (k.bs58_encode (k.into_writer self))) ++ armor_end))

  -- The map that `validate_invite_chain` looks inviters up in.
  unfoldable pub vk_by_id : IdentityExport → HashMap MemberId VerifyingKey
  vk_by_id self =
      HashMap.extend (HashMap.insert (member_id_from c self.board_owner) self.board_owner [])
        (map (λ m. (member_id c m, m.member.member_vk)) self.invite_chain)

  abbrev pub check_inviter :
      ImportError → HashMap MemberId VerifyingKey → AuthorizedMember → Result ImportError (Unit {0})
  check_inviter failure vks m = elim (HashMap.get m.member.invited_by vks) [
    | none ↦ ok tt
    | some inviter_vk ↦ ensure (verify_signature c m inviter_vk) failure
  ]

  unfoldable pub validate_invite_chain : IdentityExport → Result ImportError (Unit {0})
  unfolding vk_by_id
  validate_invite_chain self =
      check_inviter invalid_member_signature (vk_by_id self) self.authorized_member
      >> for_each (check_inviter invalid_chain_signature (vk_by_id self)) self.invite_chain

  abbrev pub or_error : {A : Type 0} → ImportError → Option A → Result ImportError A
  or_error failure none = err failure
  or_error failure (some a) = ok a

  unfoldable pub from_armored_string : Text → Result ImportError IdentityExport
  unfolding payload validate_invite_chain
  from_armored_string s = do
    reject (is_empty (payload s)) empty_token
    decoded ← or_error base58_error (k.bs58_decode (payload s))
    export ← or_error deserialization_error (k.from_reader decoded)
    ensure (c.verifying_key export.signing_key == export.authorized_member.member.member_vk)
        key_mismatch
    validate_invite_chain export
    ok export
