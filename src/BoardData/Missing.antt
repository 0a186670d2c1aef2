-- ===== src/BoardData/Missing.antt =====
-- `generate_missing_member_secrets` of ui/src/board_data.rs, and what `apply_delta` of
-- common/src/board_state/secret.rs makes of the delta.
use free_talk.Shared.{
  Bool, true, false, not, ◌&&◌, ◌||◌, List, [], none, some, ok, if◌then◌else◌, retain, contains,
  map, is_empty, is_empty-eq, All-retain, All-contains_self, Distinct, ◌==◌, ==_refl, nat_eq,
  pair_eq, list_eq, ◌⊎◌, inl, inr, arith, ◌≡◌, refl, sym, ◌∙◌,
}
use free_talk.Shared.HashSet
use free_talk.Shared.Dedup.{contains_key-by_id}
use free_talk.Model.{
  Crypto, Bytes, SignsCorrectly, VerifyingKey, MemberId, SecretVersion,
  AuthorizedEncryptedSecretForMember, BoardSecretsV1, SecretsDelta, member_id,
}
use free_talk.Ecies.{Ciphers, Random}
use free_talk.Secret.{
  pair_of, may_receive, prune, sorted, set_current_version, apply_delta, record_version,
}
use free_talk.Secret.Complete.{contains_of_version}
use free_talk.Secret.Keeps.{IsSound}
use free_talk.BoardData.{BoardData, is_private, get_secret, parameters}
use free_talk.BoardData.Secrets.{
  secrets_for, members_without_secrets, generate_missing_member_secrets,
}
use free_talk.BoardData.Distribute.{
  with_secrets, Distinct-retain, contains-retain_self, apply_delta_ok, contains-sorted,
}
use free_talk.BoardData.Blobs.{
  pairs, contains-pairs, AreMembers, secrets_for-pairs, secrets_for-accepted, contains-with_new,
}

-- What the two tests leave.
picked :
    {A : Type 0} (b b' : Bool) (x d : A)
    → (if b then none else if b' then none else some x) ≡ some d
    → x ≡ d
picked true b' x d h = cc
picked false true x d h = cc
picked false false x d h = cc

not_picked :
    {A : Type 0} (b b' : Bool) (x : A)
    → (if b then none else if b' then none else some x) ≡ none
    → (b ≡ true) ⊎ (b' ≡ true)
not_picked true b' x h = inl refl
not_picked false true x h = inr refl
not_picked false false x h = cc

module _ (c : Crypto) (k : Ciphers) (random : VerifyingKey → Random) (self : BoardData)
    (secret : Bytes) (v : SecretVersion) where
  abbrev made : List AuthorizedEncryptedSecretForMember
  made = secrets_for c k random secret v self (members_without_secrets c v self)

  abbrev missing : SecretsDelta
  missing = record { current_version = none; new_versions = []; new_encrypted_secrets = made }

  contains-members_without_secrets :
      (id : MemberId)
      → contains (members_without_secrets c v self) id ≡ (
          contains (map (member_id c) self.board_state.members) id
          && not (contains (map pair_of self.board_state.secrets.encrypted_secrets) (v, id)))
  unfolding members_without_secrets
  contains-members_without_secrets id =
      contains-retain_self _ (map (member_id c) self.board_state.members) id
      ∙ rw
          (
            HashSet.contains-collect
                (map (λ (s : AuthorizedEncryptedSecretForMember). s.secret.member_id)
                  (retain (λ s. s.secret.secret_version == v)
                    self.board_state.secrets.encrypted_secrets))
                id,
            contains_of_version v self.board_state.secrets.encrypted_secrets id,
          )
          refl

  members_of_missing : AreMembers c k random secret v self (members_without_secrets c v self)
  unfolding members_without_secrets
  members_of_missing =
      All-retain (λ id. contains (map (member_id c) self.board_state.members) id ≡ true)
        (λ id. contains (map (member_id c) self.board_state.members) id ≡ true) _
        (map (member_id c) self.board_state.members) (λ id h e. h)
        (All-contains_self (map (member_id c) self.board_state.members))

  generated :
      is_private self ≡ true
      → get_secret self ≡ some (secret, v)
      → generate_missing_member_secrets c k random self ≡ (
          if is_empty (members_without_secrets c v self)
          then none
          else if is_empty made
          then none
          else some missing)
  unfolding generate_missing_member_secrets
  generated private known = rw (private, known) refl

  none_missing :
      (id : MemberId)
      → (is_empty (members_without_secrets c v self) ≡ true) ⊎ (is_empty made ≡ true)
      → contains (members_without_secrets c v self) id ≡ false
  none_missing id (inl e) = rw (is_empty-eq (members_without_secrets c v self) e) refl
  none_missing id (inr e) =
      let paired =
        secrets_for-pairs c k random secret v self (members_without_secrets c v self)
          members_of_missing in
      let nothing : contains (pairs v (members_without_secrets c v self)) (v, id) ≡ false =
        rw (← paired) (rw (is_empty-eq made e) refl) in
      ground (arith, contains-pairs v (members_without_secrets c v self) v id, nothing, ==_refl v)

  abbrev after : BoardSecretsV1
  after = with_secrets c self.board_state (parameters self) self.board_state.secrets made

  apply_delta-missing :
      SignsCorrectly c
      → self.owner_vk ≡ c.verifying_key self.self_sk
      → IsSound c self.board_state (parameters self) self.board_state.secrets
      → Distinct (map (member_id c) self.board_state.members)
      → contains (map record_version self.board_state.secrets.versions) v ≡ true
      → apply_delta c self.board_state.secrets self.board_state (parameters self) (some missing)
        ≡ (sorted (prune c self.board_state (parameters self) after), ok tt)
  unfolding members_without_secrets set_current_version
  apply_delta-missing signs owner sound members recorded =
      apply_delta_ok c self.board_state (parameters self) self.board_state.secrets
        self.board_state.secrets after after missing refl
        (secrets_for-accepted c k random secret v self self.board_state.secrets
          (members_without_secrets c v self) signs owner recorded members_of_missing
          (Distinct-retain _ (map (member_id c) self.board_state.members) members)
          sound.pairs_distinct (λ id h. ground (arith, contains-members_without_secrets id)))
        refl

  contains-applied :
      (id : MemberId)
      → contains
          (map pair_of
            (sorted (prune c self.board_state (parameters self) after)).encrypted_secrets)
          (v, id)
        ≡ (contains (map (member_id c) self.board_state.members) id
            || (contains (map pair_of self.board_state.secrets.encrypted_secrets) (v, id)
                && may_receive c self.board_state (parameters self) id))
  contains-applied id =
      contains-sorted c self.board_state (parameters self) after (v, id)
      ∙ rw
          (contains-with_new c k random secret v self self.board_state.secrets
            (members_without_secrets c v self) v id members_of_missing)
          (ground (
            arith,
            ==_refl v,
            contains-members_without_secrets id,
            contains_key-by_id (member_id c) self.board_state.members id,
          ))

-- The owner of a private board, who has the secret of a version that has a record, gives it to the
-- members that lack it, where own signatures verify, the board's secrets are sound and its members
-- are distinct. Where nothing is generated, every member has one already. Otherwise the delta
-- applies without an error to the board's secrets and keeps their current version; every member has
-- one then, and beside the members only who had one before and may receive it.
pub generate_missing_member_secrets_lem :
    (c : Crypto) (k : Ciphers) (random : VerifyingKey → Random) (self : BoardData) (secret : Bytes)
    (v : SecretVersion)
    → SignsCorrectly c
    → self.owner_vk ≡ c.verifying_key self.self_sk
    → IsSound c self.board_state (parameters self) self.board_state.secrets
    → Distinct (map (member_id c) self.board_state.members)
    → is_private self ≡ true
    → get_secret self ≡ some (secret, v)
    → contains (map record_version self.board_state.secrets.versions) v ≡ true
    → (generate_missing_member_secrets c k random self ≡ none
        → (id : MemberId) → contains (map (member_id c) self.board_state.members) id ≡ true
        → contains (map pair_of self.board_state.secrets.encrypted_secrets) (v, id) ≡ true)
      × ((d : SecretsDelta)
          → generate_missing_member_secrets c k random self ≡ some d
          → ((apply_delta c self.board_state.secrets self.board_state (parameters self) (some d)).1
              ≡ ok tt)
            × ((apply_delta c self.board_state.secrets self.board_state
                  (parameters self)
                  (some d)).0.current_version
                ≡ self.board_state.secrets.current_version)
            × ((id : MemberId)
                → contains
                    (map pair_of
                      (apply_delta c self.board_state.secrets self.board_state
                        (parameters self)
                        (some d)).0.encrypted_secrets)
                    (v, id)
                  ≡ (contains (map (member_id c) self.board_state.members) id
                      || (contains (map pair_of self.board_state.secrets.encrypted_secrets) (v, id)
                          && may_receive c self.board_state (parameters self) id))))
unfolding sorted prune
generate_missing_member_secrets_lem c k random self secret v signs owner sound members private known
      recorded =
    (
      (λ h id member. ground (
        arith,
        none_missing c k random self secret v id (
            not_picked (is_empty (members_without_secrets c v self))
              (is_empty (made c k random self secret v)) (missing c k random self secret v)
              (sym (generated c k random self secret v private known) ∙ h)),
        contains-members_without_secrets c k random self secret v id,
      )),
      (λ d h.
          let same =
            picked (is_empty (members_without_secrets c v self))
              (is_empty (made c k random self secret v)) (missing c k random self secret v) d
              (sym (generated c k random self secret v private known) ∙ h) in
          rw
            (
              ← same,
              apply_delta-missing c k random self secret v signs owner sound members recorded,
            )
            (refl, refl, contains-applied c k random self secret v)),
    )
