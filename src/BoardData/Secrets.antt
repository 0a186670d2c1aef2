-- ===== src/BoardData/Secrets.antt =====
-- The board's secret in the hands of its owner: `rotate_secret` and `generate_missing_member_secrets` of
-- ui/src/board_data.rs. `new_secret` is what `generate_board_secret` draws, and `random` what is drawn for
-- the secret of a member. The version of a secret wraps around as `u32` does in a release build.
use Prim.Native.Nat.{◌%◌}
use free_talk.Shared.{
  ◌+◌, ◌^◌, not, List, [], ◌∷◌, Option, none, some, Result, ok, err, ◌>>◌, reject, if◌then◌else◌,
  is_empty, find, retain, contains, map, ◌==◌, nat_eq, list_eq,
}
use free_talk.Shared.HashMap
use free_talk.Shared.HashMap.{HashMap}
use free_talk.Shared.HashSet
use free_talk.Shared.HashSet.{HashSet}
use free_talk.Model.{
  Crypto, Bytes, VerifyingKey, MemberId, SystemTime, SecretVersion, BoardCipherSpec,
  AuthorizedEncryptedSecretForMember, SecretsDelta, member_id_from, member_id,
}
use free_talk.Ecies.{Ciphers, Random, encrypt_secret_for_member}
use free_talk.Secret.{new_version_record, new_encrypted_secret}
use free_talk.Member.Downstream.{banned_user}
use free_talk.BoardData.{
  BoardData, RotateError, public_board, not_the_owner, no_members, is_private, get_secret,
}

module _ (c : Crypto) where
  -- The members that are not banned.
  unfoldable pub current_members : BoardData → List MemberId
  current_members self =
      let banned_members = HashSet.collect (map banned_user self.board_state.bans) in
      retain (λ id. not (contains banned_members id)) (map (member_id c) self.board_state.members)

  -- The members that have no secret of the version.
  unfoldable pub members_without_secrets : SecretVersion → BoardData → List MemberId
  members_without_secrets current_version self =
      let members_with_secrets = HashSet.collect (
        map (λ (s : AuthorizedEncryptedSecretForMember). s.secret.member_id)
          (retain (λ s. s.secret.secret_version == current_version)
            self.board_state.secrets.encrypted_secrets)) in
      retain (λ id. not (contains members_with_secrets id))
        (map (member_id c) self.board_state.members)

  module _ (k : Ciphers) (random : VerifyingKey → Random) where
    -- The loops of `rotate_secret` and `generate_missing_member_secrets` over identifiers of members.
    unfoldable pub secrets_for :
        (secret : Bytes)
        → SecretVersion
        → BoardData
        → List MemberId
        → List AuthorizedEncryptedSecretForMember
    secrets_for secret version self [] = []
    secrets_for secret version self (id ∷ ids) =
        let rest = secrets_for secret version self ids in
        elim (find (λ m. member_id c m == id) self.board_state.members) [
          | none ↦ rest
          | some m ↦
              let blob =
                encrypt_secret_for_member k (random m.member.member_vk) secret m.member.member_vk in
              new_encrypted_secret c
                (record {
                  member_id = id;
                  secret_version = version;
                  ciphertext = blob.ciphertext;
                  nonce = blob.nonce;
                  sender_ephemeral_public_key = blob.ephemeral_key;
                  provider = member_id_from c self.owner_vk;
                })
                self.self_sk
              ∷ rest
        ]

    unfoldable pub rotate_secret :
        (now : SystemTime) (new_secret : Bytes)
        → BoardData
        → BoardData × Result RotateError SecretsDelta
    unfolding is_private current_members secrets_for
    rotate_secret now new_secret self =
        let new_version = (self.board_state.secrets.current_version + 1) % 2 ^ 32 in
        let authorized_version =
          new_version_record c
            (record {
              version = new_version;
              cipher_spec = BoardCipherSpec.aes256_gcm;
              created_at = now;
            })
            self.self_sk in
        elim (reject (not (is_private self)) public_board
          >> reject (not (self.owner_vk == c.verifying_key self.self_sk)) not_the_owner
          >> reject (is_empty (current_members self)) no_members) [
            | err e ↦ (self, err e)
            | ok checked ↦ (
              record self {
                secrets = HashMap.insert new_version new_secret self.secrets;
                current_secret_version = some new_version;
                last_secret_rotation = some now;
              },
              ok (record {
                current_version = some new_version;
                new_versions = authorized_version ∷ [];
                new_encrypted_secrets =
                    secrets_for new_secret new_version self (current_members self);
              }),
            )
          ]

    unfoldable pub generate_missing_member_secrets : BoardData → Option SecretsDelta
    unfolding is_private get_secret members_without_secrets secrets_for
    generate_missing_member_secrets self =
        if not (is_private self) then none else elim (get_secret self) [
          | none ↦ none
          | some (board_secret, current_version) ↦
              let new_encrypted_secrets =
                secrets_for board_secret current_version self
                  (members_without_secrets current_version self) in
              if is_empty (members_without_secrets current_version self)
              then none
              else if is_empty new_encrypted_secrets
              then none
              else some (record {
                current_version = none;
                new_versions = [];
                new_encrypted_secrets = new_encrypted_secrets;
              })
        ]
