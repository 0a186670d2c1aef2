-- ===== src/Model/Signing.antt =====
-- Signing and verifying: common/src/util.rs over the crates that it calls. `Crypto` is
-- ed25519-dalek (`sign`, `verify`, `verifying_key`), freenet-scaffold's `fast_hash`, and ciborium's
-- `into_writer` at each record that is signed.
use free_talk.Shared.{Bool, true, ◌≡◌}
use free_talk.Model.Privacy.{
  MemberId, BanId, MessageId, FastHash, VerifyingKey, SigningKey, Signature, Bytes,
}
use free_talk.Model.Records.{
  Member, AuthorizedMember, Admin, UserBan, AuthorizedUserBan, MemberInfo, UpgradeV1,
}
use free_talk.Model.Message.{MessageV1, AuthorizedMessageV1}
use free_talk.Model.Secret.{SecretVersionRecordV1, EncryptedSecretForMemberV1}
use free_talk.Model.Settings.{Configuration}

-- `T: Serialize`, at the types that the program signs
pub data Signable : Type 0 where
  member : Member → Signable
  admin : Admin → Signable
  user_ban : UserBan → Signable
  member_info : MemberInfo → Signable
  upgrade : UpgradeV1 → Signable
  message : MessageV1 → Signable
  secret_version_record : SecretVersionRecordV1 → Signable
  encrypted_secret : EncryptedSecretForMemberV1 → Signable
  configuration : Configuration → Signable

pub record Crypto : Type 0 where
  pub fast_hash : Bytes → FastHash
  pub into_writer : Signable → Bytes
  pub verifying_key : SigningKey → VerifyingKey
  pub sign : SigningKey → Bytes → Signature
  pub verify : VerifyingKey → Bytes → Signature → Bool

-- What ed25519 promises: a key's own signature verifies.
abbrev pub SignsCorrectly : Crypto → Type 0
SignsCorrectly c = (k : SigningKey) (m : Bytes) → c.verify (c.verifying_key k) m (c.sign k m) ≡ true

module _ (c : Crypto) where
  unfoldable pub sign_struct : Signable → SigningKey → Signature
  sign_struct m signing_key = c.sign signing_key (c.into_writer m)

  -- `true` for `Ok(())`
  unfoldable pub verify_struct : Signable → Signature → VerifyingKey → Bool
  verify_struct m signature verifying_key = c.verify verifying_key (c.into_writer m) signature

  -- `MemberId::from`
  unfoldable pub member_id_from : VerifyingKey → MemberId
  member_id_from vk = c.fast_hash vk

  -- `Member::id`
  unfoldable pub member_id : AuthorizedMember → MemberId
  unfolding member_id_from
  member_id m = member_id_from m.member.member_vk

  -- `AuthorizedUserBan::id`
  unfoldable pub ban_id : AuthorizedUserBan → BanId
  ban_id b = c.fast_hash b.signature

  -- `AuthorizedMessageV1::id`
  unfoldable pub message_id : AuthorizedMessageV1 → MessageId
  message_id m = c.fast_hash m.signature

  -- A key's own signature of a record verifies.
  pub verify_struct-sign_struct :
      SignsCorrectly c
      → (m : Signable) (k : SigningKey)
      → verify_struct m (sign_struct m k) (c.verifying_key k) ≡ true
  unfolding sign_struct verify_struct
  verify_struct-sign_struct h m k = h k (c.into_writer m)
