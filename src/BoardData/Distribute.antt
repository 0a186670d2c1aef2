-- ===== src/BoardData/Distribute.antt =====
-- New secrets for members, as `apply_delta` of common/src/board_state/secret.rs takes them: those that
-- the loops of ui/src/board_data.rs make are all accepted.
use free_talk.Shared.{
  Bool, true, false, ◌&&◌, ◌||◌, List, [], ◌∷◌, ◌++◌, some, ok, run_all, retain, contains,
  contains-retain, map, any-append, All, Distinct, ◌==◌, ==_refl, ==_comm, nat_eq, pair_eq, list_eq,
  PartialEq, Bool-cases, inl, inr, arith, ◌≡◌, refl, sym, ap, subst, ◌∙◌,
}
use free_talk.Shared.Keys.{contains-sort_by}
use free_talk.Model.{
  Crypto, MemberId, SecretVersion, AuthorizedSecretVersionRecord,
  AuthorizedEncryptedSecretForMember, BoardSecretsV1, SecretsDelta, ChatBoardStateV1,
  ChatBoardParametersV1,
}
use free_talk.Secret.{
  pair_of, secret_le, add_version, set_current_version, apply_delta, add_secret, may_receive, prune,
  sorted, verify_version_record, verify_encrypted_secret, record_version,
}

-- Lists of which no two elements are the same, one after the other.
module _ {A : Type 0} ⦃e : PartialEq A⦄ where
  pub contains-append :
      (xs ys : List A) (a : A) → contains (xs ++ ys) a ≡ (contains xs a || contains ys a)
  contains-append xs ys a = any-append (λ x. x == a) xs ys

  pub Distinct-append :
      (xs ys : List A)
      → Distinct xs
      → Distinct ys
      → ((a : A) → contains ys a ≡ true → contains xs a ≡ false)
      → Distinct (xs ++ ys)
  Distinct-append [] ys d f apart = f
  Distinct-append (x ∷ xs) ys d f apart = (
    elim (Bool-cases (contains ys x)) [
      | inl there ↦ let same = ==_refl x in let never = apart x there in ground arith
      | inr absent ↦ ground (arith, contains-append xs ys x, d.0)
    ],
    Distinct-append xs ys d.1 f (λ a there. ground (arith, apart a there)),
  )

  -- What stands between is not before it.
  fresh_of_Distinct : (xs ys : List A) (a : A) → Distinct (xs ++ a ∷ ys) → contains xs a ≡ false
  fresh_of_Distinct [] ys a d = refl
  fresh_of_Distinct (x ∷ xs) ys a d =
      ground (arith, contains-append xs (a ∷ ys) x, d.0, ==_comm x a, fresh_of_Distinct xs ys a d.1)

  pub contains-retain_self :
      (q : A → Bool) (xs : List A) (a : A) → contains (retain q xs) a ≡ (contains xs a && q a)
  contains-retain_self q [] a = refl
  contains-retain_self q (x ∷ xs) a = elim (Bool-cases (x == a)) [
    | inl same ↦
        let p = (e.is_eq_iff x a).0 same in
        rw p (ground (arith, ==_refl a, contains-retain_self q xs a))
    | inr other ↦ ground (arith, contains-retain_self q xs a)
  ]

  pub Distinct-retain : (q : A → Bool) (xs : List A) → Distinct xs → Distinct (retain q xs)
  Distinct-retain q [] d = tt
  Distinct-retain q (x ∷ xs) d = elim (Bool-cases (q x)) [
    | inl stays ↦
        rw stays (ground (arith, contains-retain_self q xs x, d.0), Distinct-retain q xs d.1)
    | inr goes ↦ rw goes (Distinct-retain q xs d.1)
  ]

pub map-append :
    {A : Type 0} {B : Type 0} (f : A → B) (xs ys : List A) → map f (xs ++ ys) ≡ map f xs ++ map f ys
map-append f [] ys = refl
map-append f (x ∷ xs) ys = ap (◌∷◌ (f x)) (map-append f xs ys)

append_assoc : {A : Type 0} (xs ys zs : List A) → (xs ++ ys) ++ zs ≡ xs ++ (ys ++ zs)
append_assoc [] ys zs = refl
append_assoc (x ∷ xs) ys zs = ap (◌∷◌ x) (append_assoc xs ys zs)

append_nil : {A : Type 0} (xs : List A) → xs ++ [] ≡ xs
append_nil [] = refl
append_nil (x ∷ xs) = ap (◌∷◌ x) (append_nil xs)

module _ (c : Crypto) (state : ChatBoardStateV1) (p : ChatBoardParametersV1) where
  -- A secret that `add_secret` takes, but for the pairs that are there.
  pub record IsGiven (versions : List AuthorizedSecretVersionRecord)
      (x : AuthorizedEncryptedSecretForMember) : Type 0 where
    pub signed : verify_encrypted_secret c x p.owner ≡ true
    pub received : may_receive c state p x.secret.member_id ≡ true
    pub known : contains (map record_version versions) x.secret.secret_version ≡ true

  abbrev pub with_secrets :
      BoardSecretsV1 → List AuthorizedEncryptedSecretForMember → BoardSecretsV1
  with_secrets s xs = record {
    current_version = s.current_version;
    versions = s.versions;
    encrypted_secrets = s.encrypted_secrets ++ xs;
  }

  add_secret_lem :
      (s : BoardSecretsV1) (x : AuthorizedEncryptedSecretForMember)
      → IsGiven s.versions x
      → contains (map pair_of s.encrypted_secrets) (pair_of x) ≡ false
      → add_secret c state p s x ≡ ok (with_secrets s (x ∷ []))
  unfolding add_secret
  add_secret_lem s x g fresh = rw (g.signed, g.received, g.known, fresh) refl

  -- All are added, in their order, where no pair of a version and a member occurs twice.
  pub run_all-add_secret :
      (s : BoardSecretsV1) (xs : List AuthorizedEncryptedSecretForMember)
      → All (IsGiven s.versions) xs
      → Distinct (map pair_of (s.encrypted_secrets ++ xs))
      → run_all (add_secret c state p) s xs ≡ (with_secrets s xs, ok tt)
  run_all-add_secret s [] g d =
      ap (λ xs. (record s { encrypted_secrets = xs }, ok tt)) (sym (append_nil s.encrypted_secrets))
  run_all-add_secret s (x ∷ xs) g d =
      rw (run_all, add_secret_lem s x g.0 fresh)
        (run_all-add_secret (with_secrets s (x ∷ [])) xs g.1
            (subst (λ l. Distinct (map pair_of l)) (sym around) d)
          ∙ ap (λ l. (record s { encrypted_secrets = l }, ok tt)) around)
    where
      around : (s.encrypted_secrets ++ x ∷ []) ++ xs ≡ s.encrypted_secrets ++ x ∷ xs
      around = append_assoc s.encrypted_secrets (x ∷ []) xs

      fresh : contains (map pair_of s.encrypted_secrets) (pair_of x) ≡ false
      fresh =
          fresh_of_Distinct (map pair_of s.encrypted_secrets) (map pair_of xs) (pair_of x)
            (subst (λ l. Distinct l) (map-append pair_of s.encrypted_secrets (x ∷ xs)) d)

  add_version_lem :
      (s : BoardSecretsV1) (v : AuthorizedSecretVersionRecord)
      → verify_version_record c v p.owner ≡ true
      → contains (map record_version s.versions) (record_version v) ≡ false
      → add_version c p s v ≡ ok (record s { versions = s.versions ++ v ∷ [] })
  unfolding add_version
  add_version_lem s v signed fresh = rw (signed, fresh) refl

  -- One record is added.
  pub run_all-add_version :
      (s : BoardSecretsV1) (v : AuthorizedSecretVersionRecord)
      → verify_version_record c v p.owner ≡ true
      → contains (map record_version s.versions) (record_version v) ≡ false
      → run_all (add_version c p) s (v ∷ []) ≡ (record s { versions = s.versions ++ v ∷ [] }, ok tt)
  run_all-add_version s v signed fresh = rw (run_all, add_version_lem s v signed fresh) refl

  -- The parts of `apply_delta`, where none of them fails.
  pub apply_delta_ok :
      (s s1 s2 s3 : BoardSecretsV1) (d : SecretsDelta)
      → run_all (add_version c p) s d.new_versions ≡ (s1, ok tt)
      → run_all (add_secret c state p) s1 d.new_encrypted_secrets ≡ (s2, ok tt)
      → set_current_version s2 d.current_version ≡ ok s3
      → apply_delta c s state p (some d) ≡ (sorted (prune c state p s3), ok tt)
  unfolding apply_delta
  apply_delta_ok s s1 s2 s3 d hv hs hc =
      let secrets =
        ap (λ v. run_all (add_secret c state p) v d.new_encrypted_secrets) (ap (λ r. r.0) hv)
        ∙ hs in
      let current =
        ap (λ v. set_current_version v d.current_version) (ap (λ r. r.0) secrets) ∙ hc in
      rw (apply_delta, ap (λ r. r.1) hv, ap (λ r. r.1) secrets, current) refl

  -- The pairs after pruning and sorting.
  pub contains-sorted :
      (s : BoardSecretsV1) (z : SecretVersion × MemberId)
      → contains (map pair_of (sorted (prune c state p s)).encrypted_secrets) z
        ≡ (contains (map pair_of s.encrypted_secrets) z && may_receive c state p z.1)
  unfolding sorted prune
  contains-sorted s z =
      contains-sort_by pair_of secret_le
        (retain (λ x. may_receive c state p (pair_of x).1) s.encrypted_secrets) z
      ∙ contains-retain pair_of (λ q. may_receive c state p q.1) s.encrypted_secrets z
