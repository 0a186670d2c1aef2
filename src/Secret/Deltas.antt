-- ===== src/Secret/Deltas.antt =====
-- A delta that leaves secrets which do not verify (`apply_delta` and `verify` of
-- common/src/board_state/secret.rs).
use free_talk.Shared.{
  ◌≤◌, ◌<◌, ◌≡◌, ◌≢◌, refl, sym, ap, ◌∙◌, subst, arith, true, false, List, [], ◌∷◌, ◌++◌, Option,
  none, some, ok, run_all, if◌then◌else◌, contains, map, Bool-cases, inl, inr, ltb, nat_eq, ◌==◌,
  ==_refl,
}
use free_talk.Shared.Keys.{contains-map_snoc}
use free_talk.Shared.Order.{contains-sort_by_key}
use free_talk.Model.{
  Crypto, SecretVersion, AuthorizedSecretVersionRecord, BoardSecretsV1, SecretsDelta,
  ChatBoardStateV1, ChatBoardParametersV1,
}
use free_talk.Secret.{
  record_version, max_version, check_current_version, verify_version_record, verify, add_version,
  set_current_version, prune, sorted, apply_delta,
}

max_version_bound :
    (l : List AuthorizedSecretVersionRecord) (k : SecretVersion)
    → contains (map record_version l) k ≡ true
    → (m : SecretVersion) × (max_version l ≡ some m) × (k ≤ m)
unfolding max_version
max_version_bound [] k h = cc
max_version_bound (v ∷ l) k h = at (max_version l) refl (max_version_bound l k)
  where
    at :
        (o : Option SecretVersion)
        → max_version l ≡ o
        → (contains (map record_version l) k ≡ true
            → (m : SecretVersion) × (max_version l ≡ some m) × (k ≤ m))
        → (m : SecretVersion) × (max_version (v ∷ l) ≡ some m) × (k ≤ m)
    at none e ih = elim (Bool-cases (record_version v == k)) [
      | inl here ↦ (record_version v, rw (max_version, e) refl, ground (arith, here))
      | inr other ↦ let (m, got, le) = ih (ground arith) in absurd (none_some (sym e ∙ got))
    ]
      where
        none_some : {m : SecretVersion} → none ≡ some m → ⊥
        none_some q = cc
    at (some w) e ih = (
      (if ltb w (record_version v) then record_version v else w),
      rw (max_version, e) refl,
      elim (Bool-cases (record_version v == k)) [
        | inl here ↦ ground arith
        | inr other ↦
            let (m, got, le) = ih (ground arith) in
            let same : w ≡ m = same_value (sym e ∙ got) in ground (arith, le)
      ],
    )
      where
        same_value : {a b : SecretVersion} → some a ≡ some b → a ≡ b
        same_value q = cc

verify_current :
    (c : Crypto) (s : BoardSecretsV1) (p : ChatBoardParametersV1) (k : SecretVersion)
    → contains (map record_version s.versions) k ≡ true
    → verify c s p ≡ ok tt
    → k ≤ s.current_version
unfolding verify check_current_version
verify_current c s p k has h =
    let (m, got, le) = max_version_bound s.versions k has in ground (arith, got, le)

-- A delta of one version record, which does not set the current version.
abbrev pub one_version : AuthorizedSecretVersionRecord → SecretsDelta
one_version v = record { current_version = none; new_versions = v ∷ []; new_encrypted_secrets = [] }

with_version : BoardSecretsV1 → AuthorizedSecretVersionRecord → BoardSecretsV1
with_version self v = record {
  current_version = self.current_version;
  versions = self.versions ++ v ∷ [];
  encrypted_secrets = self.encrypted_secrets;
}

version_added :
    (c : Crypto) (p : ChatBoardParametersV1) (self : BoardSecretsV1)
    (v : AuthorizedSecretVersionRecord)
    → verify_version_record c v p.owner ≡ true
    → contains (map record_version self.versions) (record_version v) ≡ false
    → add_version c p self v ≡ ok (with_version self v)
unfolding add_version with_version
version_added c p self v signed fresh = rw (signed, fresh) refl

version_run :
    (c : Crypto) (p : ChatBoardParametersV1) (self : BoardSecretsV1)
    (v : AuthorizedSecretVersionRecord)
    → add_version c p self v ≡ ok (with_version self v)
    → run_all (add_version c p) self (v ∷ []) ≡ (with_version self v, ok tt)
version_run c p self v added = rw (run_all, added) refl

one_version_applied :
    (c : Crypto) (state : ChatBoardStateV1) (p : ChatBoardParametersV1) (self : BoardSecretsV1)
    (v : AuthorizedSecretVersionRecord)
    → add_version c p self v ≡ ok (with_version self v)
    → apply_delta c self state p (some (one_version v))
      ≡ (sorted (prune c state p (with_version self v)), ok tt)
unfolding apply_delta set_current_version
one_version_applied c state p self v added =
    rw (apply_delta, version_run c p self v added)
      (ap (λ z. (sorted (prune c state p z.0), ok tt)) (version_run c p self v added))

current_stays :
    (c : Crypto) (state : ChatBoardStateV1) (p : ChatBoardParametersV1) (self : BoardSecretsV1)
    (v : AuthorizedSecretVersionRecord)
    → verify c (sorted (prune c state p (with_version self v))) p ≡ ok tt
    → record_version v ≤ self.current_version
unfolding sorted prune with_version
current_stays c state p self v h =
    verify_current c (sorted (prune c state p (with_version self v))) p (record_version v)
      (contains-sort_by_key record_version (self.versions ++ v ∷ []) (record_version v)
        ∙ ground (
          arith,
          contains-map_snoc record_version self.versions v (record_version v),
          ==_refl (record_version v),
        ))
      h

-- A version record that the owner signed, of a version above the current one, is accepted in a delta
-- that does not set the current version; the secrets then do not verify.
apply_delta_unannounced :
    (c : Crypto) (state : ChatBoardStateV1) (p : ChatBoardParametersV1) (self : BoardSecretsV1)
    (v : AuthorizedSecretVersionRecord)
    → verify_version_record c v p.owner ≡ true
    → contains (map record_version self.versions) (record_version v) ≡ false
    → self.current_version < record_version v
    → ((apply_delta c self state p (some (one_version v))).1 ≡ ok tt)
      × (verify c (apply_delta c self state p (some (one_version v))).0 p ≢ ok tt)
apply_delta_unannounced c state p self v signed fresh above =
    let e = one_version_applied c state p self v (version_added c p self v signed fresh) in
    subst (λ z. (z.1 ≡ ok tt) × (verify c z.0 p ≢ ok tt)) (sym e)
      (refl, λ h. omega (arith, above, current_stays c state p self v h))
