-- ===== src/BoardData/Blobs.antt =====
-- The secrets that the loops of ui/src/board_data.rs make (`secrets_for`), when the owner of the board
-- makes them.
use free_talk.Shared.{
  true, false, ◌&&◌, ◌||◌, List, [], ◌∷◌, ◌++◌, some, ok, run_all, find, contains, map, All,
  Distinct, ◌==◌, nat_eq, pair_eq, list_eq, Bool-cases, inl, inr, arith, ◌≡◌, refl, sym, ap, subst,
  ◌∙◌,
}
use free_talk.Shared.Dedup.{contains_key-by_id}
use free_talk.Model.{
  Crypto, Bytes, Signable, SignsCorrectly, VerifyingKey, MemberId, SecretVersion, AuthorizedMember,
  AuthorizedSecretVersionRecord, BoardSecretsV1, member_id, verify_struct-sign_struct,
}
use free_talk.Ecies.{Ciphers, Random}
use free_talk.Secret.{
  add_secret, pair_of, verify_encrypted_secret, new_encrypted_secret, record_version,
}
use free_talk.BoardData.{BoardData, parameters}
use free_talk.BoardData.Secrets.{secrets_for}
use free_talk.BoardData.Distribute.{
  IsGiven, with_secrets, run_all-add_secret, Distinct-append, map-append, contains-append,
}

module _ (v : SecretVersion) where
  -- The pairs of one version.
  abbrev pub pairs : List MemberId → List (SecretVersion × MemberId)
  pairs [] = []
  pairs (id ∷ ids) = (v, id) ∷ pairs ids

  pub contains-pairs :
      (ids : List MemberId) (w : SecretVersion) (id : MemberId)
      → contains (pairs ids) (w, id) ≡ (v == w && contains ids id)
  contains-pairs [] w id = ground arith
  contains-pairs (i ∷ ids) w id = ground (arith, contains-pairs ids w id)

  pub pairs-Distinct : (ids : List MemberId) → Distinct ids → Distinct (pairs ids)
  pairs-Distinct [] d = tt
  pairs-Distinct (i ∷ ids) d = (ground (arith, contains-pairs ids v i, d.0), pairs-Distinct ids d.1)

find_contained :
    (c : Crypto) (members : List AuthorizedMember) (id : MemberId)
    → contains (map (member_id c) members) id ≡ true
    → (m : AuthorizedMember) × (find (λ m. member_id c m == id) members ≡ some m)
find_contained c [] id h = cc
find_contained c (m ∷ members) id h = elim (Bool-cases (member_id c m == id)) [
  | inl here ↦ (m, rw here refl)
  | inr later ↦ rw later (find_contained c members id (ground arith))
]

module _ (c : Crypto) (k : Ciphers) (random : VerifyingKey → Random) (secret : Bytes)
    (version : SecretVersion) (self : BoardData) where
  abbrev pub AreMembers : List MemberId → Type 0
  AreMembers ids = All (λ id. contains (map (member_id c) self.board_state.members) id ≡ true) ids

  -- One for each member, of the version.
  pub secrets_for-pairs :
      (ids : List MemberId)
      → AreMembers ids
      → map pair_of (secrets_for c k random secret version self ids) ≡ pairs version ids
  unfolding secrets_for new_encrypted_secret
  secrets_for-pairs [] h = refl
  secrets_for-pairs (id ∷ ids) h =
      let found = find_contained c self.board_state.members id h.0 in
      rw (secrets_for, found.1, new_encrypted_secret)
        (ap (◌∷◌ (version, id)) (secrets_for-pairs ids h.1))

  -- Each is signed by the owner, for a member, and of a known version.
  pub secrets_for-IsGiven :
      (versions : List AuthorizedSecretVersionRecord) (ids : List MemberId)
      → SignsCorrectly c
      → self.owner_vk ≡ c.verifying_key self.self_sk
      → contains (map record_version versions) version ≡ true
      → AreMembers ids
      → All
          (IsGiven c self.board_state (parameters self) versions)
          (secrets_for c k random secret version self ids)
  unfolding secrets_for new_encrypted_secret verify_encrypted_secret parameters
  secrets_for-IsGiven versions [] s o v h = tt
  secrets_for-IsGiven versions (id ∷ ids) s o v h =
      let found = find_contained c self.board_state.members id h.0 in
      rw (secrets_for, found.1, new_encrypted_secret)
        (
          record {
            signed =
                rw (verify_encrypted_secret, o)
                  (verify_struct-sign_struct c s (Signable.encrypted_secret _) self.self_sk);
            received =
                ground (arith, contains_key-by_id (member_id c) self.board_state.members id, h.0);
            known = v;
          },
          secrets_for-IsGiven versions ids s o v h.1,
        )

  -- All are taken, where no member has one of the version yet.
  pub secrets_for-accepted :
      (s : BoardSecretsV1) (ids : List MemberId)
      → SignsCorrectly c
      → self.owner_vk ≡ c.verifying_key self.self_sk
      → contains (map record_version s.versions) version ≡ true
      → AreMembers ids
      → Distinct ids
      → Distinct (map pair_of s.encrypted_secrets)
      → ((id : MemberId)
          → contains ids id ≡ true
          → contains (map pair_of s.encrypted_secrets) (version, id) ≡ false)
      → run_all
          (add_secret c self.board_state (parameters self))
          s
          (secrets_for c k random secret version self ids)
        ≡ (
          with_secrets c self.board_state
              (parameters self)
              s
              (secrets_for c k random secret version self ids),
          ok tt,
        )
  secrets_for-accepted s ids signs owner known members d d' apart =
      let made = secrets_for c k random secret version self ids in
      let e = secrets_for-pairs ids members in
      let different : Distinct (map pair_of (s.encrypted_secrets ++ made)) =
        subst (λ l. Distinct l)
          (sym (
            map-append pair_of s.encrypted_secrets made
            ∙ ap (λ l. map pair_of s.encrypted_secrets ++ l) e))
          (Distinct-append (map pair_of s.encrypted_secrets) (pairs version ids) d'
            (pairs-Distinct version ids d)
            (λ (w, id) there. apart_pair w id (contains-pairs version ids w id) there)) in
      run_all-add_secret c self.board_state (parameters self) s made
        (secrets_for-IsGiven s.versions ids signs owner known members) different
    where
      apart_pair :
          (w : SecretVersion) (id : MemberId)
          → contains (pairs version ids) (w, id) ≡ (version == w && contains ids id)
          → contains (pairs version ids) (w, id) ≡ true
          → contains (map pair_of s.encrypted_secrets) (w, id) ≡ false
      apart_pair w id e there =
          let both = sym e ∙ there in
          let same : (version == w) ≡ true = ground (arith, both) in
          subst (λ u. contains (map pair_of s.encrypted_secrets) (u, id) ≡ false)
            ((nat_eq.is_eq_iff version w).0 same) (apart id (ground (arith, both)))

  -- The pairs with those of the new ones.
  pub contains-with_new :
      (s : BoardSecretsV1) (ids : List MemberId) (w : SecretVersion) (id : MemberId)
      → AreMembers ids
      → contains
          (map pair_of (s.encrypted_secrets ++ secrets_for c k random secret version self ids))
          (w, id)
        ≡ (contains (map pair_of s.encrypted_secrets) (w, id) || (version == w && contains ids id))
  contains-with_new s ids w id members =
      let made = secrets_for c k random secret version self ids in
      rw (map-append pair_of s.encrypted_secrets made, secrets_for-pairs ids members)
        (contains-append (map pair_of s.encrypted_secrets) (pairs version ids) (w, id)
          ∙ ap (λ b. contains (map pair_of s.encrypted_secrets) (w, id) || b)
              (contains-pairs version ids w id))
