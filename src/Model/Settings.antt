-- ===== src/Model/Settings.antt =====
-- The records of common/src/board_state/configuration.rs.
use free_talk.Shared.{ℕ}
use free_talk.Model.Privacy.{MemberId, Signature, PrivacyMode, BoardDisplayMetadata}

pub record Configuration : Type 0 where
  pub owner_member_id : MemberId
  pub configuration_version : ℕ
  pub privacy_mode : PrivacyMode
  pub display : BoardDisplayMetadata
  pub max_user_bans : ℕ
  pub max_message_size : ℕ
  pub max_title_size : ℕ
  pub max_nickname_size : ℕ
  pub max_admins : ℕ
  pub max_board_name : ℕ
  pub max_board_description : ℕ

pub record AuthorizedConfigurationV1 : Type 0 where
  pub configuration : Configuration
  pub signature : Signature
