-- ===== src/Upgrade.antt =====
-- common/src/board_state/upgrade.rs: the address of the contract that replaces this one.
pub mod Order
mod Tests
use free_talk.Shared.{
  ℕ, Bool, true, false, Option, none, some, Result, ok, err, ◌>>=◌, ◌>>◌, ensure, ltb,
  if◌then◌else◌,
}
use mathlib.Core.Option
use free_talk.Model.{
  Crypto, Signable, VerifyingKey, SigningKey, AuthorizedUpgradeV1, UpgradeV1, ChatBoardParametersV1,
  Error, invalid_signature, sign_struct, verify_struct,
}

module _ (c : Crypto) where
  -- `AuthorizedUpgradeV1::new`
  unfoldable pub new : UpgradeV1 → SigningKey → AuthorizedUpgradeV1
  unfolding sign_struct
  new upgrade signing_key = record {
    upgrade = upgrade;
    signature = sign_struct c (Signable.upgrade upgrade) signing_key;
  }

  unfoldable pub validate : AuthorizedUpgradeV1 → VerifyingKey → Bool
  unfolding verify_struct
  validate a key = verify_struct c (Signable.upgrade a.upgrade) a.signature key

  unfoldable pub verify :
      Option AuthorizedUpgradeV1 → ChatBoardParametersV1 → Result Error (Unit {0})
  unfolding validate
  verify none parameters = ok tt
  verify (some upgrade) parameters = ensure (validate upgrade parameters.owner) invalid_signature

  unfoldable pub apply_delta :
      Option AuthorizedUpgradeV1
      → ChatBoardParametersV1
      → Option AuthorizedUpgradeV1
      → Result Error (Option AuthorizedUpgradeV1)
  unfolding validate
  apply_delta self parameters none = ok self
  apply_delta self parameters (some delta) =
      ensure (validate delta parameters.owner) invalid_signature >> ok (some delta)

unfoldable pub summarize : Option AuthorizedUpgradeV1 → Option ℕ
summarize self = Option.map (λ (u : AuthorizedUpgradeV1). u.upgrade.version) self

newer_than : Option ℕ → ℕ → Bool
newer_than none version = true
newer_than (some old_version) version = ltb old_version version

unfoldable pub delta : Option AuthorizedUpgradeV1 → Option ℕ → Option AuthorizedUpgradeV1
unfolding newer_than
delta none old = none
delta (some upgrade) old = if newer_than old upgrade.upgrade.version then some upgrade else none
