-- ===== src/Secret/Tests.antt =====
-- Examples for common/src/board_state/secret.rs.
use free_talk.Shared.{ℕ, ◌≤◌, ◌≡◌, inr, refl, [], ◌∷◌, some, nat_eq, list_eq}
use free_talk.Model.{
  AuthorizedSecretVersionRecord, AuthorizedEncryptedSecretForMember, BoardSecretsV1, SecretsDelta,
  BoardCipherSpec, ChatBoardStateV1, member_id,
}
use free_talk.Examples.{toy, parameters, three_members, board}
use free_talk.Member.Chain.{owner_id}
use free_talk.Secret.{
  record_version, verify, verify_version_record, verify_encrypted_secret, apply_delta,
}
use free_talk.Secret.Keeps.{IsSound, apply_delta-IsSound}

abbrev record_of : ℕ → AuthorizedSecretVersionRecord
record_of version = record {
  payload = record { version = version; cipher_spec = BoardCipherSpec.aes256_gcm; created_at = 0 };
  owner_signature = 9 ∷ 7 ∷ version ∷ [];
}

abbrev secret_of : (id version : ℕ) → AuthorizedEncryptedSecretForMember
secret_of id version = record {
  secret = record {
    member_id = id;
    secret_version = version;
    ciphertext = [];
    nonce = [];
    sender_ephemeral_public_key = [];
    provider = 9;
  };
  owner_signature = 9 ∷ 8 ∷ id ∷ version ∷ [];
}

abbrev here : ChatBoardStateV1
here = board three_members []

abbrev first : BoardSecretsV1
first = record {
  current_version = 1;
  versions = record_of 1 ∷ [];
  encrypted_secrets = secret_of 2 1 ∷ [];
}

-- The second secret is one that is there already.
abbrev refused : SecretsDelta
refused = record {
  current_version = some 2;
  new_versions = record_of 2 ∷ [];
  new_encrypted_secrets = secret_of 3 2 ∷ secret_of 2 1 ∷ [];
}

first-IsSound : IsSound toy here parameters first
unfolding verify_version_record verify_encrypted_secret
first-IsSound = record {
  versions_signed = (refl, tt);
  secrets_signed = (refl, tt);
  versions_distinct = (refl, tt);
  pairs_distinct = (refl, tt);
  secrets_known = (refl, tt);
  current_known = inr refl;
}

-- The version record stays in the state of the refused call.
kept_half : (apply_delta toy first here parameters (some refused)).0 ≡ record {
  current_version = 1;
  versions = record_of 1 ∷ record_of 2 ∷ [];
  encrypted_secrets = secret_of 2 1 ∷ secret_of 3 2 ∷ [];
}
unfolding apply_delta free_talk.Secret.add_version verify_version_record free_talk.Secret.add_secret
    verify_encrypted_secret owner_id member_id
kept_half = refl

apply_delta-IsSound_example :
    IsSound toy here parameters (apply_delta toy first here parameters (some refused)).0
    × (1 ≤ (apply_delta toy first here parameters (some refused)).0.current_version)
apply_delta-IsSound_example =
    apply_delta-IsSound toy here parameters first (some refused) first-IsSound
