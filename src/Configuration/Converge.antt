-- ===== src/Configuration/Converge.antt =====
-- Replicas that receive configurations in different orders (common/src/board_state/configuration.rs).
use free_talk.Shared.{
  ℕ, ◌<◌, ◌≤◌, none, some, Result, ok, err, ◌≡◌, ◌≢◌, ◌⊎◌, inl, inr, refl, sym, ◌∙◌, arith, leb,
  Bool-cases,
}
use free_talk.Model.{
  Crypto, SigningKey, SignsCorrectly, AuthorizedConfigurationV1, Configuration, Error,
  ChatBoardParametersV1, Signable,
}
use free_talk.Configuration.{verify, new, summarize, delta, apply_delta}
use free_talk.Configuration.Accept.{IsSuccessor, apply_delta_accepts}

-- The state of a replica after a delta: a refused delta leaves it as it was.
abbrev pub after :
    AuthorizedConfigurationV1 → Result Error AuthorizedConfigurationV1 → AuthorizedConfigurationV1
after old (ok s) = s
after old (err e) = old

apart : (a b : ℕ) → a ≢ b → (a < b) ⊎ (b < a)
apart a b h = elim (Bool-cases (leb a b)) [
  | inl le ↦ inl (ground arith)
  | inr gt ↦ inr (ground arith)
]

module _ (c : Crypto) (p : ChatBoardParametersV1) where
  abbrev pub receive :
      AuthorizedConfigurationV1 → AuthorizedConfigurationV1 → AuthorizedConfigurationV1
  receive old d = after old (apply_delta c old p (some d))

  receive-successor :
      (old d : AuthorizedConfigurationV1) → IsSuccessor c p old d → receive old d ≡ d
  receive-successor old d s = rw ((apply_delta_accepts c p old d d).1 (refl, s))

  receive-old :
      (old d : AuthorizedConfigurationV1)
      → d.configuration.configuration_version ≤ old.configuration.configuration_version
      → receive old d ≡ old
  receive-old old d h = go (apply_delta c old p (some d)) refl
    where
      go :
          (r : Result Error AuthorizedConfigurationV1)
          → apply_delta c old p (some d) ≡ r
          → after old r ≡ old
      go (ok s) e =
          let q = (apply_delta_accepts c p old d s).0 e in absurd (omega (arith, q.1.newer))
      go (err x) e = refl

  ordered :
      (old d e : AuthorizedConfigurationV1)
      → IsSuccessor c p old d
      → IsSuccessor c p old e
      → d.configuration.configuration_version < e.configuration.configuration_version
      → (receive (receive old d) e ≡ e) × (receive (receive old e) d ≡ e)
  ordered old d e hd he lt = (
    rw (receive-successor old d hd) (receive-successor d e later),
    rw (receive-successor old e he) (receive-old e d (omega arith)),
  )
    where
      later : IsSuccessor c p d e
      later = ground arith

  -- Two successors of a configuration, of different versions, lead to one state in both orders.
  receive_comm :
      (old d e : AuthorizedConfigurationV1)
      → IsSuccessor c p old d
      → IsSuccessor c p old e
      → d.configuration.configuration_version ≢ e.configuration.configuration_version
      → receive (receive old d) e ≡ receive (receive old e) d
  receive_comm old d e hd he ne =
      by_version
        (apart d.configuration.configuration_version e.configuration.configuration_version ne)
    where
      by_version :
          (d.configuration.configuration_version < e.configuration.configuration_version)
            ⊎ (e.configuration.configuration_version < d.configuration.configuration_version)
          → receive (receive old d) e ≡ receive (receive old e) d
      by_version (inl lt) = let q = ordered old d e hd he lt in q.0 ∙ sym q.1
      by_version (inr lt) = let q = ordered old e d he hd lt in q.1 ∙ sym q.0

  -- Of two configurations of one version, neither replaces the other: a replica that has one
  -- refuses the other, and offers nothing to the replica that has the other.
  same_version_diverges :
      (d e : AuthorizedConfigurationV1)
      → d.configuration.configuration_version ≡ e.configuration.configuration_version
      → (receive d e ≡ d) × (receive e d ≡ e) × (delta c d (summarize c e) ≡ none)
  unfolding delta summarize
  same_version_diverges d e h =
      (receive-old d e (omega arith), receive-old e d (omega arith), ground arith)

-- A configuration that the owner signs verifies against the owner's key.
pub verify-new :
    (c : Crypto)
    → SignsCorrectly c
    → (n : Configuration) (k : SigningKey)
    → verify c (new c n k) (record { owner = c.verifying_key k }) ≡ ok tt
unfolding verify new
verify-new c h n k = rw (h k (c.into_writer (Signable.configuration n)))
