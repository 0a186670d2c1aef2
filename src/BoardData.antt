-- ===== src/BoardData.antt =====
-- ui/src/board_data.rs: what a client keeps of one board, and what it does with the board's secret.
-- A `SystemTime` is in nanoseconds, and `now` is `get_current_system_time()`.
pub mod Secrets
pub mod Distribute
pub mod Blobs
pub mod Rotation
pub mod Rotate
pub mod Missing
pub mod Read
pub mod Access
mod Tests
use Prim.Native.Nat.{◌%◌, ◌/◌}
use free_talk.Shared.{
  ℕ, ◌+◌, ◌-◌, ◌*◌, ◌^◌, Bool, true, false, not, ◌&&◌, ◌||◌, List, [], ◌∷◌, Option, none, some,
  Result, ok, err, ◌>>◌, reject, if◌then◌else◌, is_empty, any, find, retain, contains, map, ltb,
  leb, ◌==◌, nat_eq, list_eq,
}
use free_talk.Shared.HashMap
use free_talk.Shared.HashMap.{HashMap}
use free_talk.Shared.HashSet
use free_talk.Shared.HashSet.{HashSet}
use free_talk.Model.{
  Crypto, Bytes, VerifyingKey, SigningKey, MemberId, MessageId, SystemTime, SecretVersion,
  PrivacyMode, BoardCipherSpec, AuthorizedMember, AuthorizedMemberInfo, SecretVersionRecordV1,
  AuthorizedSecretVersionRecord, EncryptedSecretForMemberV1, AuthorizedEncryptedSecretForMember,
  SecretsDelta, ChatBoardStateV1, ChatBoardParametersV1, member_id_from, member_id,
}
use free_talk.Ecies.{Ciphers, Random, encrypt_secret_for_member}
use free_talk.Secret.{new_version_record, new_encrypted_secret}
use free_talk.Member.Chain.{get_invite_chain}
use free_talk.Member.Downstream.{banned_user}
use free_talk.Admin.{admin_id}

abbrev pub ContractKey : Type 0
ContractKey = Bytes

pub data SendMessageError : Type 0 where
  user_not_member user_banned : SendMessageError

pub data RotateError : Type 0 where
  public_board not_the_owner no_members : RotateError

pub record BoardData : Type 0 where
  pub owner_vk : VerifyingKey
  pub board_state : ChatBoardStateV1
  pub self_sk : SigningKey
  pub contract_key : ContractKey
  pub last_read_message_id : Option MessageId
  pub secrets : HashMap SecretVersion Bytes
  pub current_secret_version : Option SecretVersion
  pub last_secret_rotation : Option SystemTime
  pub key_migrated_to_delegate : Bool
  pub self_authorized_member : Option AuthorizedMember
  pub invite_chain : List AuthorizedMember
  pub self_member_info : Option AuthorizedMemberInfo

abbrev pub is_some {ℓ} : {A : Type ℓ} → Option A → Bool
is_some none = false
is_some (some a) = true

unfoldable pub is_private : BoardData → Bool
is_private self = elim self.board_state.configuration.configuration.privacy_mode [
  | PrivacyMode.public ↦ false
  | PrivacyMode.private ↦ true
]

unfoldable pub parameters : BoardData → ChatBoardParametersV1
parameters self = record { owner = self.owner_vk }

-- `ContractKey::from_params_and_code`, of the bundled contract
unfoldable pub regenerate_contract_key :
    (from_params : ChatBoardParametersV1 → ContractKey) → BoardData → BoardData
unfolding parameters
regenerate_contract_key from_params self = record self {
  contract_key = from_params (parameters self);
}

unfoldable pub board_key : BoardData → VerifyingKey
board_key self = self.owner_vk

unfoldable pub get_secret_for_version : SecretVersion → BoardData → Option Bytes
get_secret_for_version version self = HashMap.get version self.secrets

unfoldable pub get_secret : BoardData → Option (Bytes × SecretVersion)
get_secret self = elim self.current_secret_version [
  | none ↦ none
  | some v ↦ elim (HashMap.get v self.secrets) [ none ↦ none | some s ↦ some (s, v) ]
]

unfoldable pub current_secret : BoardData → Option Bytes
current_secret self = elim self.current_secret_version [
  | none ↦ none
  | some v ↦ HashMap.get v self.secrets
]

unfoldable pub set_secret :
    (now : SystemTime) → (secret : Bytes) → SecretVersion → BoardData → BoardData
set_secret now secret version self =
    let kept = record self { secrets = HashMap.insert version secret self.secrets } in
    let newer : Bool = elim self.current_secret_version [ none ↦ true | some v ↦ leb v version ] in
    if newer
    then record kept { current_secret_version = some version; last_secret_rotation = some now }
    else kept

-- `duration_since` is an error where the time lies ahead.
abbrev pub a_week_after : SystemTime → SystemTime → Bool
a_week_after now time = leb time now && ltb (7 * 24 * 60 * 60) ((now - time) / 10 ^ 9)

-- Replaces the first member with the key.
unfoldable pub replace_member :
    VerifyingKey → AuthorizedMember → List AuthorizedMember → List AuthorizedMember
replace_member old_member_vk new_member [] = []
replace_member old_member_vk new_member (m ∷ members) =
    if m.member.member_vk == old_member_vk
    then new_member ∷ members
    else m ∷ replace_member old_member_vk new_member members

unfoldable pub restore_member_access :
    VerifyingKey → AuthorizedMember → BoardData → BoardData × Bool
unfolding replace_member
restore_member_access old_member_vk new_authorized_member self =
    let members = self.board_state.members in
    let found = any (λ m. m.member.member_vk == old_member_vk) members in
    (
      record self {
        board_state = record self.board_state {
          members = replace_member old_member_vk new_authorized_member members;
        };
      },
      found,
    )

-- `max_by_key` of the version: of two with the same, the later.
unfoldable pub latest : List AuthorizedMemberInfo → Option AuthorizedMemberInfo
latest [] = none
latest (i ∷ infos) = elim (latest infos) [
  | none ↦ some i
  | some j ↦ some (if leb i.member_info.version j.member_info.version then j else i)
]

module _ (c : Crypto) where
  unfoldable pub is_awaiting_initial_sync : BoardData → Bool
  is_awaiting_initial_sync self =
      if c.verifying_key self.self_sk == self.owner_vk
      then false
      else is_empty self.board_state.members && is_empty self.board_state.recent_messages.messages

  unfoldable pub owner_id : BoardData → MemberId
  owner_id self = member_id_from c self.owner_vk

  unfoldable pub needs_secret_rotation : (now : SystemTime) → BoardData → Bool
  unfolding is_private
  needs_secret_rotation now self =
      is_private self
      && self.owner_vk == c.verifying_key self.self_sk
      && elim self.last_secret_rotation [
        | none ↦ elim self.board_state.secrets.versions [
          | [] ↦ false
          | first ∷ others ↦ a_week_after now first.payload.created_at
        ]
        | some last_rotation ↦ a_week_after now last_rotation
      ]

  unfoldable pub can_send_message : BoardData → Result SendMessageError (Unit {0})
  can_send_message self =
      let verifying_key = c.verifying_key self.self_sk in
      let id = member_id_from c verifying_key in
      if any (λ b. banned_user b == id) self.board_state.bans
      then err user_banned
      else if verifying_key == self.owner_vk
      then ok tt
      else if any (λ m. m.member.member_vk == verifying_key) self.board_state.members
      then ok tt
      else if is_some self.self_authorized_member
      then ok tt
      else err user_not_member

  unfoldable pub can_participate : BoardData → Result SendMessageError (Unit {0})
  can_participate self =
      let verifying_key = c.verifying_key self.self_sk in
      let id = member_id_from c verifying_key in
      if any (λ b. banned_user b == id) self.board_state.bans
      then err user_banned
      else if verifying_key == self.owner_vk
      then ok tt
      else if any (λ m. m.member.member_vk == verifying_key) self.board_state.members
      then ok tt
      else if is_some self.self_authorized_member
      then ok tt
      else err user_not_member

  unfoldable pub can_create_categories : BoardData → Bool
  can_create_categories self =
      let self_id = member_id_from c (c.verifying_key self.self_sk) in
      let owner = member_id_from c self.owner_vk in
      if self_id == owner then true else any (λ a. admin_id a == self_id) self.board_state.admin

  -- The first part of `capture_self_membership_data`.
  unfoldable pub capture_info : BoardData → BoardData
  unfolding latest
  capture_info self =
      let id = member_id_from c (c.verifying_key self.self_sk) in
      elim (latest (retain (λ i. i.member_info.member_id == id) self.board_state.member_info)) [
        | none ↦ self
        | some info ↦ record self { self_member_info = some info }
      ]

  -- The second part. A chain that cannot be found leaves the one that is there.
  unfoldable pub capture_member : ChatBoardParametersV1 → BoardData → BoardData
  unfolding get_invite_chain
  capture_member parameters self =
      if is_some self.self_authorized_member
      then self
      else elim (find (λ m. m.member.member_vk == c.verifying_key self.self_sk)
          self.board_state.members) [
            | none ↦ self
            | some member ↦ elim (get_invite_chain c self.board_state.members member parameters) [
              | err e ↦ record self { self_authorized_member = some member }
              | ok chain ↦ record self {
                self_authorized_member = some member;
                invite_chain = chain;
              }
            ]
          ]

  unfoldable pub capture_self_membership_data : ChatBoardParametersV1 → BoardData → BoardData
  unfolding capture_info capture_member
  capture_self_membership_data parameters self =
      if c.verifying_key self.self_sk == self.owner_vk
      then self
      else capture_member parameters (capture_info self)
