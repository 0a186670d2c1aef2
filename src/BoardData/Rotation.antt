-- ===== src/BoardData/Rotation.antt =====
-- The delta that `rotate_secret` of ui/src/board_data.rs makes, in `apply_delta` of
-- common/src/board_state/secret.rs.
use free_talk.Shared.{
  ◌+◌, Bool, true, false, not, ◌&&◌, ◌||◌, List, [], ◌∷◌, ◌++◌, Option, none, some, Result, ok,
  ensure, ltb, leb, if◌then◌else◌, contains, map, All, All-retain, All-contains_self, Distinct,
  ◌==◌, ==_refl, nat_eq, pair_eq, list_eq, Bool-cases, inl, inr, arith, ◌≡◌, refl, subst, ◌∙◌,
}
use free_talk.Shared.HashSet
use free_talk.Shared.Dedup.{contains_key-by_id}
use free_talk.Shared.Keys.{contains-map_snoc}
use free_talk.Model.{
  Crypto, Bytes, Signable, SignsCorrectly, VerifyingKey, MemberId, SystemTime, BoardCipherSpec,
  SecretVersion, AuthorizedSecretVersionRecord, AuthorizedEncryptedSecretForMember, BoardSecretsV1,
  SecretsDelta, Error, current_version_not_maximum, no_version_records, member_id,
  verify_struct-sign_struct,
}
use free_talk.Ecies.{Ciphers, Random}
use free_talk.Secret.{
  pair_of, prune, sorted, max_version, check_current_version, set_current_version, apply_delta,
  verify_version_record, new_version_record, record_version,
}
use free_talk.Secret.Keeps.{IsSound}
use free_talk.Member.Downstream.{banned_user}
use free_talk.BoardData.{BoardData, parameters}
use free_talk.BoardData.Secrets.{secrets_for, current_members}
use free_talk.BoardData.Distribute.{
  with_secrets, Distinct-retain, contains-retain_self, apply_delta_ok, run_all-add_version,
  contains-sorted,
}
use free_talk.BoardData.Blobs.{AreMembers, secrets_for-accepted, contains-with_new}

-- A version is above the greatest, if there is any.
abbrev is_above : Option SecretVersion → SecretVersion → Bool
is_above none u = true
is_above (some w) u = ltb w u

absent_of_above :
    (versions : List AuthorizedSecretVersionRecord) (u : SecretVersion)
    → is_above (max_version versions) u ≡ true
    → contains (map record_version versions) u ≡ false
unfolding max_version
absent_of_above [] u h = refl
absent_of_above (v ∷ versions) u h = by_rest (max_version versions) (absent_of_above versions u) h
  where
    by_rest :
        (o : Option SecretVersion)
        → (is_above o u ≡ true → contains (map record_version versions) u ≡ false)
        → is_above
            (elim o [
              | none ↦ some (record_version v)
              | some w ↦ some (if ltb w (record_version v) then record_version v else w)
            ])
            u
          ≡ true
        → (record_version v == u || contains (map record_version versions) u) ≡ false
    by_rest none rest h = ground (arith, rest refl)
    by_rest (some w) rest h = ground (arith, rest)

fresh_version :
    (s : BoardSecretsV1)
    → check_current_version s ≡ ok tt
    → contains (map record_version s.versions) (s.current_version + 1) ≡ false
unfolding check_current_version
fresh_version s h =
    absent_of_above s.versions (s.current_version + 1) (by_max (max_version s.versions) h)
  where
    by_max :
        (o : Option SecretVersion)
        → elim o as (λ _. Result Error (Unit {0})) [
          | some max ↦
              ensure (s.current_version == max) (current_version_not_maximum s.current_version max)
          | none ↦ ensure (s.current_version == 0) no_version_records
        ]
          ≡ ok tt
        → is_above o (s.current_version + 1) ≡ true
    by_max none h = refl
    by_max (some w) h = ground arith

-- A secret that is there has a version that is known.
known_of_pair :
    (versions : List AuthorizedSecretVersionRecord) (xs : List AuthorizedEncryptedSecretForMember)
    (w : SecretVersion) (id : MemberId)
    → All (λ x. contains (map record_version versions) x.secret.secret_version ≡ true) xs
    → contains (map pair_of xs) (w, id) ≡ true
    → contains (map record_version versions) w ≡ true
known_of_pair versions [] w id known h = cc
known_of_pair versions (x ∷ xs) w id known h = elim (Bool-cases (pair_of x == (w, id))) [
  | inl here ↦
      subst (λ q. contains (map record_version versions) q.0 ≡ true)
        ((pair_eq.is_eq_iff (pair_of x) (w, id)).0 here) known.0
  | inr later ↦ known_of_pair versions xs w id known.1 (ground arith)
]

module _ (c : Crypto) (k : Ciphers) (random : VerifyingKey → Random) (now : SystemTime)
    (secret : Bytes) (self : BoardData) (signs : SignsCorrectly c)
    (owner : self.owner_vk ≡ c.verifying_key self.self_sk)
    (sound : IsSound c self.board_state (parameters self) self.board_state.secrets)
    (checked : check_current_version self.board_state.secrets ≡ ok tt)
    (members : Distinct (map (member_id c) self.board_state.members)) where
  abbrev pub version : SecretVersion
  version = self.board_state.secrets.current_version + 1

  abbrev pub made : List AuthorizedEncryptedSecretForMember
  made = secrets_for c k random secret version self (current_members c self)

  abbrev pub rotated : SecretsDelta
  rotated = record {
    current_version = some version;
    new_versions =
        new_version_record c
          (record { version = version; cipher_spec = BoardCipherSpec.aes256_gcm; created_at = now })
          self.self_sk
        ∷ [];
    new_encrypted_secrets = made;
  }

  fresh_pair :
      (id : MemberId)
      → contains (map pair_of self.board_state.secrets.encrypted_secrets) (version, id) ≡ false
  fresh_pair id =
      elim (Bool-cases
        (contains (map pair_of self.board_state.secrets.encrypted_secrets) (version, id))) [
          | inl there ↦
              let known =
                known_of_pair self.board_state.secrets.versions
                  self.board_state.secrets.encrypted_secrets version id sound.secrets_known there in
              let fresh = fresh_version self.board_state.secrets checked in cc
          | inr absent ↦ absent
        ]

  contains-current_members :
      (id : MemberId)
      → contains (current_members c self) id ≡ (
          contains (map (member_id c) self.board_state.members) id
          && not (contains (map banned_user self.board_state.bans) id))
  unfolding current_members
  contains-current_members id =
      contains-retain_self
        (λ i. not (contains (HashSet.collect (map banned_user self.board_state.bans)) i))
        (map (member_id c) self.board_state.members) id
      ∙ rw (HashSet.contains-collect (map banned_user self.board_state.bans) id) refl

  members_of_current : AreMembers c k random secret version self (current_members c self)
  unfolding current_members
  members_of_current =
      All-retain (λ id. contains (map (member_id c) self.board_state.members) id ≡ true)
        (λ id. contains (map (member_id c) self.board_state.members) id ≡ true)
        (λ id. not (contains (HashSet.collect (map banned_user self.board_state.bans)) id))
        (map (member_id c) self.board_state.members) (λ id h e. h)
        (All-contains_self (map (member_id c) self.board_state.members))

  current_members-Distinct : Distinct (current_members c self)
  unfolding current_members
  current_members-Distinct = Distinct-retain _ (map (member_id c) self.board_state.members) members

  abbrev pub with_version : BoardSecretsV1
  with_version = record {
    current_version = self.board_state.secrets.current_version;
    versions = self.board_state.secrets.versions ++ rotated.new_versions;
    encrypted_secrets = self.board_state.secrets.encrypted_secrets;
  }

  abbrev new_record : AuthorizedSecretVersionRecord
  new_record =
      new_version_record c
        (record { version = version; cipher_spec = BoardCipherSpec.aes256_gcm; created_at = now })
        self.self_sk

  version_of_record : record_version new_record ≡ version
  unfolding new_version_record
  version_of_record = refl

  new_record_signed : verify_version_record c new_record (parameters self).owner ≡ true
  unfolding verify_version_record parameters new_version_record
  new_record_signed =
      rw owner (verify_struct-sign_struct c signs (Signable.secret_version_record _) self.self_sk)

  version_known : contains (map record_version with_version.versions) version ≡ true
  version_known = ground (
    arith,
    contains-map_snoc record_version self.board_state.secrets.versions new_record version,
    version_of_record,
    ==_refl version,
  )

  set_current_version-raised :
      set_current_version
        (with_secrets c self.board_state (parameters self) with_version made)
        (some version)
      ≡ ok (record {
        current_version = version;
        versions = with_version.versions;
        encrypted_secrets = self.board_state.secrets.encrypted_secrets ++ made;
      })
  unfolding set_current_version
  set_current_version-raised =
      let above : leb version self.board_state.secrets.current_version ≡ false = ground arith in
      rw (set_current_version, above, version_known) refl

  pub apply_delta-rotated :
      apply_delta c self.board_state.secrets self.board_state (parameters self) (some rotated) ≡ (
        sorted (
            prune c self.board_state (parameters self) (record {
              current_version = version;
              versions = with_version.versions;
              encrypted_secrets = self.board_state.secrets.encrypted_secrets ++ made;
            })),
        ok tt,
      )
  apply_delta-rotated =
      apply_delta_ok c self.board_state (parameters self) self.board_state.secrets with_version
        (with_secrets c self.board_state (parameters self) with_version made) _ rotated
        (run_all-add_version c self.board_state (parameters self) self.board_state.secrets
          new_record new_record_signed
          (rw version_of_record (fresh_version self.board_state.secrets checked)))
        (secrets_for-accepted c k random secret version self with_version (current_members c self)
          signs owner version_known members_of_current current_members-Distinct sound.pairs_distinct
          (λ id h. fresh_pair id))
        set_current_version-raised

  pub contains-rotated :
      (id : MemberId)
      → contains
          (map pair_of
            (sorted (
              prune c self.board_state (parameters self) (record {
                current_version = version;
                versions = with_version.versions;
                encrypted_secrets = self.board_state.secrets.encrypted_secrets ++ made;
              }))).encrypted_secrets)
          (version, id)
        ≡ (contains (map (member_id c) self.board_state.members) id
            && not (contains (map banned_user self.board_state.bans) id))
  contains-rotated id =
      contains-sorted c self.board_state (parameters self) _ (version, id)
      ∙ rw
          (contains-with_new c k random secret version self self.board_state.secrets
            (current_members c self) version id members_of_current)
          (ground (
            arith,
            fresh_pair id,
            ==_refl version,
            contains-current_members id,
            contains_key-by_id (member_id c) self.board_state.members id,
          ))
