-- ===== src/Model/Secret.antt =====
-- The records of common/src/board_state/secret.rs.
use free_talk.Shared.{List, Option}
use free_talk.Shared.HashSet.{HashSet}
use free_talk.Model.Privacy.{MemberId, Signature, SystemTime, SecretVersion, Bytes, BoardCipherSpec}

pub record SecretVersionRecordV1 : Type 0 where
  pub version : SecretVersion
  pub cipher_spec : BoardCipherSpec
  pub created_at : SystemTime

pub record AuthorizedSecretVersionRecord : Type 0 where
  pub payload : SecretVersionRecordV1
  pub owner_signature : Signature

pub record EncryptedSecretForMemberV1 : Type 0 where
  pub member_id : MemberId
  pub secret_version : SecretVersion
  pub ciphertext : Bytes
  pub nonce : Bytes
  pub sender_ephemeral_public_key : Bytes
  pub provider : MemberId

pub record AuthorizedEncryptedSecretForMember : Type 0 where
  pub secret : EncryptedSecretForMemberV1
  pub owner_signature : Signature

pub record BoardSecretsV1 : Type 0 where
  pub current_version : SecretVersion
  pub versions : List AuthorizedSecretVersionRecord
  pub encrypted_secrets : List AuthorizedEncryptedSecretForMember

pub record SecretsSummary : Type 0 where
  pub current_version : SecretVersion
  pub version_ids : HashSet SecretVersion
  pub member_secrets : HashSet (SecretVersion × MemberId)

pub record SecretsDelta : Type 0 where
  pub current_version : Option SecretVersion
  pub new_versions : List AuthorizedSecretVersionRecord
  pub new_encrypted_secrets : List AuthorizedEncryptedSecretForMember
