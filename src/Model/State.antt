-- ===== src/Model/State.antt =====
-- common/src/board_state.rs: the whole state, its parameters, and the errors of its operations.
-- An error stands for the message of the source, with the values that the message shows.
use free_talk.Shared.{ℕ, List, Option}
use free_talk.Shared.HashMap.{HashMap}
use free_talk.Model.Privacy.{MemberId, BanId, MessageId, VerifyingKey, SecretVersion}
use free_talk.Model.Records.{
  AuthorizedMember, AuthorizedAdmin, AuthorizedUserBan, AuthorizedMemberInfo, AuthorizedUpgradeV1,
}
use free_talk.Model.Message.{MessagesV1}
use free_talk.Model.Secret.{BoardSecretsV1}
use free_talk.Model.Settings.{AuthorizedConfigurationV1}

-- The one-field structs `BansV1`, `MembersV1`, `AdminsV1`, `MemberInfoV1`, `OptionalUpgradeV1` and
-- `StateVersion` are their field.
pub record ChatBoardStateV1 : Type 0 where
  pub configuration : AuthorizedConfigurationV1
  pub admin : List AuthorizedAdmin
  pub bans : List AuthorizedUserBan
  pub members : List AuthorizedMember
  pub member_info : List AuthorizedMemberInfo
  pub secrets : BoardSecretsV1
  pub recent_messages : MessagesV1
  pub upgrade : Option AuthorizedUpgradeV1
  pub version : ℕ

pub record ChatBoardParametersV1 : Type 0 where
  pub owner : VerifyingKey

pub data BanValidationError : Type 0 where
  member_not_found : MemberId → BanValidationError
  banner_not_found : MemberId → BanValidationError
  not_in_invite_chain : MemberId → MemberId → BanValidationError
  self_invitation_detected : MemberId → BanValidationError
  inviter_not_found : MemberId → BanValidationError
  exceeded_maximum_bans : BanValidationError
  -- A loop of the model met the end of its fuel. The source has no such error.
  out_of_fuel : BanValidationError

pub data Error : Type 0 where
  invalid_signature : Error
  -- configuration
  version_not_greater : Error
  owner_changed : Error
  invalid_configuration_values : Error
  name_too_long : ℕ → ℕ → Error
  description_too_long : ℕ → ℕ → Error
  display_not_encrypted : Error
  -- members and admins
  owner_in_members : Error
  key_of_owner : Error
  owner_in_admins : Error
  owner_added_as_admin : Error
  too_many_admins : ℕ → ℕ → Error
  self_invitation : MemberId → Error
  circular_invite_chain : MemberId → Error
  inviter_not_found : MemberId → MemberId → Error
  -- bans
  invalid_bans : HashMap BanId BanValidationError → Error
  too_many_bans : ℕ → ℕ → Error
  duplicate_ban : BanId → Error
  invalid_delta : Error → Error
  -- member info
  info_of_nonmember : MemberId → Error
  nickname_too_long : ℕ → ℕ → Error
  -- secrets
  current_version_not_maximum : SecretVersion → SecretVersion → Error
  no_version_records : Error
  duplicate_secret_version : SecretVersion → Error
  nonexistent_secret_version : SecretVersion → Error
  duplicate_encrypted_secret : MemberId → SecretVersion → Error
  current_version_not_greater : SecretVersion → SecretVersion → Error
  nonexistent_current_version : SecretVersion → Error
  -- messages
  author_not_found : MemberId → Error
  invalid_message_signature : MessageId → Error
  title_too_long : ℕ → ℕ → Error
  title_with_newline : Error
  wrong_secret_version : SecretVersion → SecretVersion → Error
  incomplete_distribution : Error
  public_in_private_board : Error
  -- state version
  unknown_state_version : ℕ → ℕ → Error
  -- A loop of the model met the end of its fuel. The source has no such error.
  out_of_fuel : Error
