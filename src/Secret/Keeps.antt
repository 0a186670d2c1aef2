-- ===== src/Secret/Keeps.antt =====
-- What holds of the secrets after every delta, refused ones included
-- (`apply_delta` of common/src/board_state/secret.rs).
use free_talk.Shared.{
  ◌≤◌, ◌≡◌, ◌⊎◌, inl, inr, refl, ◌∙◌, subst, arith, true, false, [], ◌∷◌, ◌++◌, Option, none, some,
  Result, ok, err, run_all, run_all-keeps, All, All-mono, All-append, All-retain, contains, map,
  Distinct, nat_eq, pair_eq,
}
use free_talk.Shared.Keys.{contains-map_snoc, snoc_Distinct, retain-Distinct, sort_by-Distinct}
use free_talk.Shared.Order.{
  sort_by_key, All-sort_by, contains-sort_by_key, sort_by_key-Distinct, All-sort_by_key,
}
use free_talk.Model.{
  Crypto, SecretVersion, AuthorizedSecretVersionRecord, AuthorizedEncryptedSecretForMember,
  BoardSecretsV1, SecretsDelta, ChatBoardStateV1, ChatBoardParametersV1, Error,
}
use free_talk.Secret.{
  record_version, pair_of, secret_le, verify_version_record, verify_encrypted_secret, add_version,
  add_secret, may_receive, set_current_version, prune, sorted, apply_delta,
}

module _ (c : Crypto) (state : ChatBoardStateV1) (p : ChatBoardParametersV1) where
  -- The owner signed everything; no version occurs twice, and no member has two secrets of one version;
  -- the version of a secret, and the current version unless it is 0, has a record.
  pub record IsSound (s : BoardSecretsV1) : Type 0 where
    pub versions_signed : All (λ v. verify_version_record c v p.owner ≡ true) s.versions
    pub secrets_signed : All (λ x. verify_encrypted_secret c x p.owner ≡ true) s.encrypted_secrets
    pub versions_distinct : Distinct (map record_version s.versions)
    pub pairs_distinct : Distinct (map pair_of s.encrypted_secrets)
    pub secrets_known :
        All
          (λ x. contains (map record_version s.versions) x.secret.secret_version ≡ true)
          s.encrypted_secrets
    pub current_known :
        (s.current_version ≡ 0)
        ⊎ (contains (map record_version s.versions) s.current_version ≡ true)

  add_version_parts :
      (s t : BoardSecretsV1) (v : AuthorizedSecretVersionRecord)
      → add_version c p s v ≡ ok t
      → (verify_version_record c v p.owner ≡ true)
        × (contains (map record_version s.versions) (record_version v) ≡ false)
        × (record {
          current_version = s.current_version;
          versions = s.versions ++ v ∷ [];
          encrypted_secrets = s.encrypted_secrets;
        }
            ≡ t)
  unfolding add_version
  add_version_parts s t v h = ground arith

  add_version-IsSound :
      (s t : BoardSecretsV1) (v : AuthorizedSecretVersionRecord)
      → IsSound s
      → add_version c p s v ≡ ok t
      → IsSound t
  add_version-IsSound s t v i h =
      let (signed, fresh, eq) = add_version_parts s t v h in
      subst IsSound eq (record {
        versions_signed =
            All-append (λ v. verify_version_record c v p.owner ≡ true) s.versions (v ∷ [])
              i.versions_signed (signed, tt);
        secrets_signed = i.secrets_signed;
        versions_distinct = snoc_Distinct record_version s.versions v i.versions_distinct fresh;
        pairs_distinct = i.pairs_distinct;
        secrets_known =
            All-mono (λ x. contains (map record_version s.versions) x.secret.secret_version ≡ true)
              (λ x.
                contains (map record_version (s.versions ++ v ∷ [])) x.secret.secret_version ≡ true)
              s.encrypted_secrets
              (λ x k.
                ground
                  (arith, contains-map_snoc record_version s.versions v x.secret.secret_version))
              i.secrets_known;
        current_known = widen i.current_known;
      })
    where
      widen :
          (s.current_version ≡ 0)
            ⊎ (contains (map record_version s.versions) s.current_version ≡ true)
          → (s.current_version ≡ 0)
            ⊎ (contains (map record_version (s.versions ++ v ∷ [])) s.current_version ≡ true)
      widen (inl z) = inl z
      widen (inr k) =
          inr (ground (arith, contains-map_snoc record_version s.versions v s.current_version))

  add_secret_parts :
      (s t : BoardSecretsV1) (x : AuthorizedEncryptedSecretForMember)
      → add_secret c state p s x ≡ ok t
      → (s ≡ t)
        ⊎ ((verify_encrypted_secret c x p.owner ≡ true)
            × (contains (map record_version s.versions) x.secret.secret_version ≡ true)
            × (contains (map pair_of s.encrypted_secrets) (pair_of x) ≡ false)
            × (record {
              current_version = s.current_version;
              versions = s.versions;
              encrypted_secrets = s.encrypted_secrets ++ x ∷ [];
            }
                ≡ t))
  unfolding add_secret
  add_secret_parts s t x h = ground arith

  add_secret-IsSound :
      (s t : BoardSecretsV1) (x : AuthorizedEncryptedSecretForMember)
      → IsSound s
      → add_secret c state p s x ≡ ok t
      → IsSound t
  add_secret-IsSound s t x i h = elim (add_secret_parts s t x h) [
    | inl same ↦ subst IsSound same i
    | inr (signed, known, fresh, eq) ↦ subst IsSound eq (record {
      versions_signed = i.versions_signed;
      secrets_signed =
          All-append (λ x. verify_encrypted_secret c x p.owner ≡ true) s.encrypted_secrets (x ∷ [])
            i.secrets_signed (signed, tt);
      versions_distinct = i.versions_distinct;
      pairs_distinct = snoc_Distinct pair_of s.encrypted_secrets x i.pairs_distinct fresh;
      secrets_known =
          All-append (λ x. contains (map record_version s.versions) x.secret.secret_version ≡ true)
            s.encrypted_secrets (x ∷ []) i.secrets_known (known, tt);
      current_known = i.current_known;
    })
  ]

  set_current_version-IsSound :
      (s t : BoardSecretsV1) (v : Option SecretVersion)
      → IsSound s
      → set_current_version s v ≡ ok t
      → IsSound t × (s.current_version ≤ t.current_version)
  unfolding set_current_version
  set_current_version-IsSound s t none i h =
      let e : s ≡ t = cc in
      subst (λ z. IsSound z × (s.current_version ≤ z.current_version)) e (i, omega arith)
  set_current_version-IsSound s t (some v) i h =
      let e : record {
        current_version = v;
        versions = s.versions;
        encrypted_secrets = s.encrypted_secrets;
      }
          ≡ t =
        ground arith in
      subst (λ z. IsSound z × (s.current_version ≤ z.current_version)) e
        (
          record {
            versions_signed = i.versions_signed;
            secrets_signed = i.secrets_signed;
            versions_distinct = i.versions_distinct;
            pairs_distinct = i.pairs_distinct;
            secrets_known = i.secrets_known;
            current_known = inr (ground arith);
          },
          ground arith,
        )

  prune-IsSound : (s : BoardSecretsV1) → IsSound s → IsSound (prune c state p s)
  unfolding prune
  prune-IsSound s i = record {
    versions_signed = i.versions_signed;
    secrets_signed =
        All-retain (λ x. verify_encrypted_secret c x p.owner ≡ true)
          (λ x. verify_encrypted_secret c x p.owner ≡ true)
          (λ x. may_receive c state p x.secret.member_id) s.encrypted_secrets (λ x h k. h)
          i.secrets_signed;
    versions_distinct = i.versions_distinct;
    pairs_distinct =
        retain-Distinct pair_of (λ x. may_receive c state p x.secret.member_id) s.encrypted_secrets
          i.pairs_distinct;
    secrets_known =
        All-retain (λ x. contains (map record_version s.versions) x.secret.secret_version ≡ true)
          (λ x. contains (map record_version s.versions) x.secret.secret_version ≡ true)
          (λ x. may_receive c state p x.secret.member_id) s.encrypted_secrets (λ x h k. h)
          i.secrets_known;
    current_known = i.current_known;
  }

  sorted-IsSound : (s : BoardSecretsV1) → IsSound s → IsSound (sorted s)
  unfolding sorted
  sorted-IsSound s i = record {
    versions_signed =
        All-sort_by_key record_version (λ v. verify_version_record c v p.owner ≡ true) s.versions
          i.versions_signed;
    secrets_signed =
        All-sort_by secret_le (λ x. verify_encrypted_secret c x p.owner ≡ true) s.encrypted_secrets
          i.secrets_signed;
    versions_distinct = sort_by_key-Distinct record_version s.versions i.versions_distinct;
    pairs_distinct = sort_by-Distinct pair_of secret_le s.encrypted_secrets i.pairs_distinct;
    secrets_known =
        All-sort_by secret_le
          (λ x.
            contains (map record_version (sort_by_key record_version s.versions))
              x.secret.secret_version
            ≡ true)
          s.encrypted_secrets
          (All-mono (λ x. contains (map record_version s.versions) x.secret.secret_version ≡ true)
            (λ x.
              contains (map record_version (sort_by_key record_version s.versions))
                x.secret.secret_version
              ≡ true)
            s.encrypted_secrets
            (λ x k. contains-sort_by_key record_version s.versions x.secret.secret_version ∙ k)
            i.secrets_known);
    current_known = elim (i.current_known) [
      | inl z ↦ inl z
      | inr k ↦ inr (contains-sort_by_key record_version s.versions s.current_version ∙ k)
    ];
  }

  -- Sound, and with a current version that is no less than before.
  abbrev pub GrowsFrom : BoardSecretsV1 → BoardSecretsV1 → Type 0
  GrowsFrom self r = IsSound r × (self.current_version ≤ r.current_version)

  add_version-GrowsFrom :
      (self s t : BoardSecretsV1) (v : AuthorizedSecretVersionRecord)
      → GrowsFrom self s
      → add_version c p s v ≡ ok t
      → GrowsFrom self t
  add_version-GrowsFrom self s t v g h = (
    add_version-IsSound s t v g.0 h,
    subst (λ z. self.current_version ≤ z.current_version) (add_version_parts s t v h).2 g.1,
  )

  add_secret-GrowsFrom :
      (self s t : BoardSecretsV1) (x : AuthorizedEncryptedSecretForMember)
      → GrowsFrom self s
      → add_secret c state p s x ≡ ok t
      → GrowsFrom self t
  add_secret-GrowsFrom self s t x g h = (
    add_secret-IsSound s t x g.0 h,
    elim (add_secret_parts s t x h) [
      | inl same ↦ subst (λ z. self.current_version ≤ z.current_version) same g.1
      | inr (signed, known, fresh, eq) ↦
          subst (λ z. self.current_version ≤ z.current_version) eq g.1
    ],
  )

  -- Sound secrets stay sound, and the current version never falls, whatever the delta is: also where
  -- it is refused half-way, and the part before the error is in the state.
  pub apply_delta-IsSound :
      (self : BoardSecretsV1) (d : Option SecretsDelta)
      → IsSound self
      → IsSound (apply_delta c self state p d).0
        × (self.current_version ≤ (apply_delta c self state p d).0.current_version)
  unfolding apply_delta sorted prune
  apply_delta-IsSound self none i = (sorted-IsSound self i, omega arith)
  apply_delta-IsSound self (some d) i = at_versions (versions.1) refl
    where
      versions : BoardSecretsV1 × Result Error (Unit {0})
      versions = run_all (add_version c p) self d.new_versions

      secrets : BoardSecretsV1 × Result Error (Unit {0})
      secrets = run_all (add_secret c state p) versions.0 d.new_encrypted_secrets

      versions_sound : GrowsFrom self versions.0
      versions_sound =
          run_all-keeps (add_version c p) (GrowsFrom self) (add_version-GrowsFrom self) self
            d.new_versions (i, omega arith)

      secrets_sound : GrowsFrom self secrets.0
      secrets_sound =
          run_all-keeps (add_secret c state p) (GrowsFrom self) (add_secret-GrowsFrom self)
            versions.0 d.new_encrypted_secrets versions_sound

      at_current :
          (v : Result Error BoardSecretsV1)
          → versions.1 ≡ ok tt
          → secrets.1 ≡ ok tt
          → set_current_version secrets.0 d.current_version ≡ v
          → GrowsFrom self (apply_delta c self state p (some d)).0
      at_current (err e) hv hs h = rw (apply_delta, hv, hs, h) secrets_sound
      at_current (ok s) hv hs h =
          let q = set_current_version-IsSound secrets.0 s d.current_version secrets_sound.0 h in
          rw (apply_delta, hv, hs, h)
            ((
              sorted-IsSound (prune c state p s) (prune-IsSound s q.0),
              omega (arith, secrets_sound.1, q.1),
            ))

      at_secrets :
          (v : Result Error (Unit {0}))
          → versions.1 ≡ ok tt
          → secrets.1 ≡ v
          → GrowsFrom self (apply_delta c self state p (some d)).0
      at_secrets (err e) hv h = rw (apply_delta, hv, h) secrets_sound
      at_secrets (ok u) hv h =
          at_current (set_current_version secrets.0 d.current_version) hv h refl

      at_versions :
          (v : Result Error (Unit {0}))
          → versions.1 ≡ v
          → GrowsFrom self (apply_delta c self state p (some d)).0
      at_versions (err e) h = rw (apply_delta, h) versions_sound
      at_versions (ok u) h = at_secrets (secrets.1) h refl
