-- ===== src/Configuration.antt =====
-- common/src/board_state/configuration.rs: the owner's signed settings of the board.
pub mod Accept
pub mod Converge
mod Tests
use free_talk.Shared.{
  ℕ, Bool, true, false, ◌||◌, ◌&&◌, List, Option, none, some, Result, ok, err, ◌>>=◌, ◌>>◌, ensure,
  reject, ltb, leb, if◌then◌else◌, ◌==◌, nat_eq,
}
use free_talk.Model.{
  Crypto, Signable, VerifyingKey, SigningKey, Signature, AuthorizedConfigurationV1, Configuration,
  ChatBoardParametersV1, Error, invalid_signature, version_not_greater, owner_changed,
  invalid_configuration_values, name_too_long, description_too_long, display_not_encrypted,
  PrivacyMode, SealedBytes, is_public, declared_len, sign_struct, verify_struct,
}

unfoldable pub some_limit_zero : Configuration → Bool
some_limit_zero n =
    n.max_user_bans == 0
    || n.max_message_size == 0
    || n.max_title_size == 0
    || n.max_nickname_size == 0
    || n.max_admins == 0
    || n.max_board_name == 0
    || n.max_board_description == 0

unfoldable pub check_description : Option SealedBytes → ℕ → Result Error (Unit {0})
check_description none limit = ok tt
check_description (some desc) limit =
    reject (ltb limit (declared_len desc)) (description_too_long (declared_len desc) limit)

unfoldable pub is_private_mode : PrivacyMode → Bool
is_private_mode PrivacyMode.public = false
is_private_mode PrivacyMode.private = true

module _ (c : Crypto) where
  -- `AuthorizedConfigurationV1::new`
  unfoldable pub new : Configuration → SigningKey → AuthorizedConfigurationV1
  unfolding sign_struct
  new configuration owner_signing_key = record {
    configuration = configuration;
    signature = sign_struct c (Signable.configuration configuration) owner_signing_key;
  }

  unfoldable pub verify_signature : AuthorizedConfigurationV1 → VerifyingKey → Bool
  unfolding verify_struct
  verify_signature a key = verify_struct c (Signable.configuration a.configuration) a.signature key

  unfoldable pub verify :
      AuthorizedConfigurationV1 → ChatBoardParametersV1 → Result Error (Unit {0})
  unfolding verify_signature
  verify self parameters = ensure (verify_signature self parameters.owner) invalid_signature

  unfoldable pub summarize : AuthorizedConfigurationV1 → ℕ
  summarize self = self.configuration.configuration_version

  unfoldable pub delta : AuthorizedConfigurationV1 → ℕ → Option AuthorizedConfigurationV1
  delta self old_version =
      if ltb old_version self.configuration.configuration_version then some self else none

  -- The checks of a delta, in the order of the source.
  unfoldable pub check_delta :
      AuthorizedConfigurationV1
      → ChatBoardParametersV1
      → AuthorizedConfigurationV1
      → Result Error (Unit {0})
  unfolding verify_signature some_limit_zero check_description is_private_mode
  check_delta self parameters delta = do
    ensure (verify_signature delta parameters.owner) invalid_signature
    reject (leb new.configuration_version old.configuration_version) version_not_greater
    ensure (new.owner_member_id == old.owner_member_id) owner_changed
    reject (some_limit_zero new) invalid_configuration_values
    reject (ltb new.max_board_name (declared_len new.display.name))
        (name_too_long (declared_len new.display.name) new.max_board_name)
    check_description new.display.description new.max_board_description
    reject (is_private_mode new.privacy_mode && is_public new.display.name) display_not_encrypted
    where
      new : Configuration
      new = delta.configuration

      old : Configuration
      old = self.configuration

  unfoldable pub apply_delta :
      AuthorizedConfigurationV1
      → ChatBoardParametersV1
      → Option AuthorizedConfigurationV1
      → Result Error AuthorizedConfigurationV1
  unfolding check_delta
  apply_delta self parameters none = ok self
  apply_delta self parameters (some delta) =
      check_delta self parameters delta
      >> ok (record self { configuration = delta.configuration; signature = delta.signature })
