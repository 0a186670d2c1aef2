-- ===== src/Secret/Complete.antt =====
-- Who has the current secret, when it is distributed completely (`has_complete_distribution` of
-- common/src/board_state/secret.rs).
use free_talk.Shared.{
  Bool, true, List, [], ◌∷◌, map, retain, contains, all, ◌||◌, ◌==◌, nat_eq, pair_eq, ◌≡◌, ◌≢◌,
  refl, sym, ◌∙◌, ap, subst, Bool-cases, inl, inr, arith,
}
use free_talk.Shared.HashMap
use free_talk.Shared.HashMap.{HashMap}
use free_talk.Shared.HashSet
use free_talk.Model.{
  MemberId, SecretVersion, AuthorizedMember, AuthorizedEncryptedSecretForMember, BoardSecretsV1,
}
use free_talk.Secret.{pair_of, has_complete_distribution}

-- Who has a secret of a version.
pub contains_of_version :
    (v : SecretVersion) (xs : List AuthorizedEncryptedSecretForMember) (id : MemberId)
    → contains
        (map
          (λ (s : AuthorizedEncryptedSecretForMember). s.secret.member_id)
          (retain (λ s. s.secret.secret_version == v) xs))
        id
      ≡ contains (map pair_of xs) (v, id)
contains_of_version v [] id = refl
contains_of_version v (x ∷ xs) id = elim (Bool-cases (x.secret.secret_version == v)) [
  | inl same ↦ rw same (ap (λ b. x.secret.member_id == id || b) (contains_of_version v xs id))
  | inr other ↦ rw other (contains_of_version v xs id)
]

all-contains :
    (q : MemberId → Bool) (xs : List MemberId) (k : MemberId)
    → all q xs ≡ true
    → contains xs k ≡ true
    → q k ≡ true
all-contains q [] k h there = cc
all-contains q (x ∷ xs) k h there = elim (Bool-cases (x == k)) [
  | inl here ↦ subst (λ j. q j ≡ true) ((nat_eq.is_eq_iff x k).0 here) (ground arith)
  | inr later ↦ all-contains q xs k (ground arith) (ground arith)
]

-- After the first version, every member of the map has a secret of the current one.
pub distributed_to :
    (s : BoardSecretsV1) (members : HashMap MemberId AuthorizedMember) (k : MemberId)
    → has_complete_distribution s members ≡ true
    → s.current_version ≢ 0
    → HashMap.contains_key k members ≡ true
    → contains (map pair_of s.encrypted_secrets) (s.current_version, k) ≡ true
unfolding has_complete_distribution
distributed_to s members k complete later member =
    let ids =
      map (λ (x : AuthorizedEncryptedSecretForMember). x.secret.member_id)
        (retain (λ x. x.secret.secret_version == s.current_version) s.encrypted_secrets) in
    sym
      (HashSet.contains-collect ids k ∙ contains_of_version s.current_version s.encrypted_secrets k)
    ∙ all-contains (contains (HashSet.collect ids)) (HashMap.keys members) k (ground arith)
        (sym (HashMap.contains_key-keys members k) ∙ member)
