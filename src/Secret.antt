-- ===== src/Secret.antt =====
-- common/src/board_state/secret.rs.
use free_talk.Shared.{
  ℕ, zero, ◌+◌, Bool, true, false, not, ◌||◌, ◌&&◌, List, [], ◌∷◌, ◌++◌, Option, none, some, Result,
  ok, err, ◌>>=◌, ◌>>◌, ensure, reject, for_each, run_all, if◌then◌else◌, is_empty, contains, any,
  all, map, retain, ltb, leb, ◌==◌, nat_eq, PartialEq, pair_eq,
}
use free_talk.Shared.HashMap
use free_talk.Shared.HashMap.{HashMap}
use free_talk.Shared.HashSet
use free_talk.Shared.HashSet.{HashSet}
use free_talk.Shared.Order.{sort_by, sort_by_key}
use free_talk.Model.{
  Crypto, Signable, VerifyingKey, SigningKey, MemberId, SecretVersion, AuthorizedMember,
  SecretVersionRecordV1, AuthorizedSecretVersionRecord, EncryptedSecretForMemberV1,
  AuthorizedEncryptedSecretForMember, BoardSecretsV1, SecretsSummary, SecretsDelta,
  ChatBoardStateV1, ChatBoardParametersV1, Error, invalid_signature, current_version_not_maximum,
  no_version_records, duplicate_secret_version, nonexistent_secret_version,
  duplicate_encrypted_secret, current_version_not_greater, nonexistent_current_version, sign_struct,
  verify_struct,
}
use free_talk.Member.Chain.{owner_id, members_by_member_id}
pub mod Keeps
pub mod Deltas
pub mod Complete
mod Tests

abbrev pub record_version : AuthorizedSecretVersionRecord → SecretVersion
record_version v = v.payload.version

abbrev pub pair_of : AuthorizedEncryptedSecretForMember → SecretVersion × MemberId
pair_of s = (s.secret.secret_version, s.secret.member_id)

-- `iter().max()`
unfoldable pub max_version : List AuthorizedSecretVersionRecord → Option SecretVersion
max_version [] = none
max_version (v ∷ versions) = elim (max_version versions) [
  | none ↦ some (record_version v)
  | some w ↦ some (if ltb w (record_version v) then record_version v else w)
]

-- The order of pairs.
unfoldable pub secret_le :
    AuthorizedEncryptedSecretForMember → AuthorizedEncryptedSecretForMember → Bool
secret_le a b =
    ltb a.secret.secret_version b.secret.secret_version
    || (a.secret.secret_version == b.secret.secret_version
        && leb a.secret.member_id b.secret.member_id)

unfoldable pub check_current_version : BoardSecretsV1 → Result Error (Unit {0})
unfolding max_version
check_current_version self = elim (max_version self.versions) [
  | some max ↦
      ensure (self.current_version == max) (current_version_not_maximum self.current_version max)
  | none ↦ ensure (self.current_version == 0) no_version_records
]

unfoldable pub summarize : BoardSecretsV1 → SecretsSummary
summarize self = record {
  current_version = self.current_version;
  version_ids = HashSet.collect (map record_version self.versions);
  member_secrets = HashSet.collect (map pair_of self.encrypted_secrets);
}

unfoldable pub delta : BoardSecretsV1 → SecretsSummary → Option SecretsDelta
delta self old =
    let new_versions =
      retain (λ v. not (contains old.version_ids (record_version v))) self.versions in
    let new_encrypted_secrets =
      retain (λ s. not (contains old.member_secrets (pair_of s))) self.encrypted_secrets in
    if is_empty new_versions
      && is_empty new_encrypted_secrets
      && self.current_version == old.current_version
    then none
    else some (record {
      current_version =
          if ltb old.current_version self.current_version then some self.current_version else none;
      new_versions = new_versions;
      new_encrypted_secrets = new_encrypted_secrets;
    })

-- `members` by identifier; nothing is to be distributed before the first version.
unfoldable pub has_complete_distribution : BoardSecretsV1 → HashMap MemberId AuthorizedMember → Bool
has_complete_distribution self members =
    let current =
      retain (λ s. s.secret.secret_version == self.current_version) self.encrypted_secrets in
    let member_ids_with_current =
      HashSet.collect
        (map (λ (s : AuthorizedEncryptedSecretForMember). s.secret.member_id) current) in
    self.current_version == 0 || all (contains member_ids_with_current) (HashMap.keys members)

unfoldable pub set_current_version :
    BoardSecretsV1 → Option SecretVersion → Result Error BoardSecretsV1
set_current_version self none = ok self
set_current_version self (some new_version) =
    reject (leb new_version self.current_version)
      (current_version_not_greater new_version self.current_version)
    >> ensure (contains (map record_version self.versions) new_version)
        (nonexistent_current_version new_version)
    >> ok (record {
      current_version = new_version;
      versions = self.versions;
      encrypted_secrets = self.encrypted_secrets;
    })

-- The sorting at the end.
unfoldable pub sorted : BoardSecretsV1 → BoardSecretsV1
sorted self = record {
  current_version = self.current_version;
  versions = sort_by_key record_version self.versions;
  encrypted_secrets = sort_by secret_le self.encrypted_secrets;
}

module _ (c : Crypto) where
  -- `AuthorizedSecretVersionRecord::new`
  unfoldable pub new_version_record :
      SecretVersionRecordV1 → SigningKey → AuthorizedSecretVersionRecord
  unfolding sign_struct
  new_version_record payload owner_signing_key = record {
    payload = payload;
    owner_signature = sign_struct c (Signable.secret_version_record payload) owner_signing_key;
  }

  -- `AuthorizedEncryptedSecretForMember::new`
  unfoldable pub new_encrypted_secret :
      EncryptedSecretForMemberV1 → SigningKey → AuthorizedEncryptedSecretForMember
  unfolding sign_struct
  new_encrypted_secret secret owner_signing_key = record {
    secret = secret;
    owner_signature = sign_struct c (Signable.encrypted_secret secret) owner_signing_key;
  }

  unfoldable pub verify_version_record : AuthorizedSecretVersionRecord → VerifyingKey → Bool
  unfolding verify_struct
  verify_version_record v key =
      verify_struct c (Signable.secret_version_record v.payload) v.owner_signature key

  unfoldable pub verify_encrypted_secret : AuthorizedEncryptedSecretForMember → VerifyingKey → Bool
  unfolding verify_struct
  verify_encrypted_secret s key =
      verify_struct c (Signable.encrypted_secret s.secret) s.owner_signature key

  unfoldable pub verify : BoardSecretsV1 → ChatBoardParametersV1 → Result Error (Unit {0})
  unfolding check_current_version
  verify self parameters = do
    for_each (λ v. ensure (verify_version_record v parameters.owner) invalid_signature)
        self.versions
    for_each (λ s. ensure (verify_encrypted_secret s parameters.owner) invalid_signature)
        self.encrypted_secrets
    check_current_version self

  -- The body of the loop over the new version records.
  unfoldable pub add_version :
      ChatBoardParametersV1
      → BoardSecretsV1
      → AuthorizedSecretVersionRecord
      → Result Error BoardSecretsV1
  add_version parameters self v =
      ensure (verify_version_record v parameters.owner) invalid_signature
      >> reject (contains (map record_version self.versions) (record_version v))
          (duplicate_secret_version (record_version v))
      >> ok (record {
        current_version = self.current_version;
        versions = self.versions ++ v ∷ [];
        encrypted_secrets = self.encrypted_secrets;
      })

  abbrev pub may_receive : ChatBoardStateV1 → ChatBoardParametersV1 → MemberId → Bool
  may_receive parent_state parameters member_id =
      member_id == owner_id c parameters
      || HashMap.contains_key member_id (members_by_member_id c parent_state.members)

  -- The body of the loop over the new encrypted secrets; `continue` leaves the state as it is.
  unfoldable pub add_secret :
      ChatBoardStateV1
      → ChatBoardParametersV1
      → BoardSecretsV1
      → AuthorizedEncryptedSecretForMember
      → Result Error BoardSecretsV1
  add_secret parent_state parameters self s =
      ensure (verify_encrypted_secret s parameters.owner) invalid_signature
      >> (if not (may_receive parent_state parameters s.secret.member_id)
          then ok self
          else (ensure (contains (map record_version self.versions) s.secret.secret_version)
                (nonexistent_secret_version s.secret.secret_version)
              >> reject (contains (map pair_of self.encrypted_secrets) (pair_of s))
                  (duplicate_encrypted_secret s.secret.member_id s.secret.secret_version)
              >> ok (record {
                current_version = self.current_version;
                versions = self.versions;
                encrypted_secrets = self.encrypted_secrets ++ s ∷ [];
              })))

  unfoldable pub prune : ChatBoardStateV1 → ChatBoardParametersV1 → BoardSecretsV1 → BoardSecretsV1
  prune parent_state parameters self = record {
    current_version = self.current_version;
    versions = self.versions;
    encrypted_secrets =
        retain (λ s. may_receive parent_state parameters s.secret.member_id) self.encrypted_secrets;
  }

  -- The state after the call, an error included, and what it returns.
  unfoldable pub apply_delta :
      BoardSecretsV1
      → ChatBoardStateV1
      → ChatBoardParametersV1
      → Option SecretsDelta
      → BoardSecretsV1 × Result Error (Unit {0})
  unfolding sorted
  apply_delta self parent_state parameters none = (sorted self, ok tt)
  apply_delta self parent_state parameters (some delta) =
      let versions = run_all (add_version parameters) self delta.new_versions in
      elim (versions.1) [
        | err e ↦ (versions.0, err e)
        | ok u ↦
            let secrets =
              run_all (add_secret parent_state parameters) versions.0 delta.new_encrypted_secrets in
            elim (secrets.1) [
              | err e ↦ (secrets.0, err e)
              | ok u ↦ elim (set_current_version secrets.0 delta.current_version) [
                | err e ↦ (secrets.0, err e)
                | ok s ↦ (sorted (prune parent_state parameters s), ok tt)
              ]
            ]
      ]
