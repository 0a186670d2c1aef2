-- ===== src/Message/Tests.antt =====
-- Examples for common/src/board_state/message.rs.
use free_talk.Shared.{
  ℕ, ◌+◌, ◌≤◌, ◌≡◌, ◌≢◌, ◌⊎◌, refl, arith, Bool, true, false, List, [], ◌∷◌, Option, none, some,
  Result, ok, err, map, All, contains, nat_eq, list_eq,
}
use free_talk.Shared.HashMap
use free_talk.Shared.Order.{SortedBy}
use free_talk.Model.{
  Bytes, MessageId, Cbor, BoardMessageBody, ActionContentV1, EditPayload, AuthorizedMessageV1,
  MessagesV1, ChatBoardStateV1, PrivacyMode, BoardCipherSpec, AuthorizedEncryptedSecretForMember,
  BoardSecretsV1, invalid_message_signature, message_id, member_id,
}
use free_talk.Examples.{
  toy, parameters, three_members, board, member, message, no_actions, settings,
}
use free_talk.Configuration.{is_private_mode}
use free_talk.Member.Chain.{owner_id}
use free_talk.Secret.{has_complete_distribution}
use free_talk.Message.Body.{
  is_private, body_secret_version, content_len, public_action, delete_action, edit_action,
}
use free_talk.Message.Actions.{rebuild_actions_state_with_permissions}
use free_talk.Message.Apply.{message_le, validate, check_content, verify, apply_delta}
use free_talk.Message.ApplyLaws.{IsAllowed, apply_delta-IsAllowed}
use free_talk.Message.Sealed.{IsSealed, was_there, apply_delta_private}
use free_talk.Message.Forged.{no_messages, apply_delta_forged}
use free_talk.Message.Clean.{rebuild_deleted_clean}

abbrev none_of : {A : Type 0} → Bytes → Option A
none_of d = none

abbrev decode_action : Bytes → Option ActionContentV1
decode_action (t ∷ target ∷ payload) =
    some (record { action_type = t; target = target; payload = payload })
decode_action _ = none

abbrev decode_edit : Bytes → Option EditPayload
decode_edit d = some (record { new_title = []; new_text = d })

-- A codec that writes the fields one after the other, for actions with an edit as payload.
abbrev codec : Cbor
codec = record {
  encode_text = λ t. t.content;
  decode_text = none_of;
  encode_action = λ a. a.action_type ∷ a.target ∷ a.payload;
  decode_action = decode_action;
  encode_reply = λ r. r.content;
  decode_reply = none_of;
  encode_category = λ k. k.name;
  decode_category = none_of;
  encode_edit = λ e. e.new_text;
  decode_edit = decode_edit;
  encode_reaction = λ r. r.emoji;
  decode_reaction = none_of;
  encode_category_edit = λ e. e.new_name;
  decode_category_edit = none_of;
}

abbrev here : ChatBoardStateV1
here = board three_members []

-- Member 2's message of time 1, and its identifier.
abbrev target : MessageId
target = message_id toy (message 2 1)

abbrev act_message : (author at : ℕ) → ActionContentV1 → AuthorizedMessageV1
act_message author at a = record {
  message = record { board_owner = 9; author = author; time = at; content = public_action codec a };
  signature = author ∷ 6 ∷ author ∷ at ∷ [];
}

abbrev three_messages : MessagesV1
three_messages = record {
  messages =
      message 2 1
      ∷ act_message 2 2 (edit_action codec target [] (7 ∷ []))
      ∷ act_message 2 3 (delete_action codec target)
      ∷ [];
  actions_state = no_actions;
}

abbrev two_messages : MessagesV1
two_messages = record {
  messages = message 2 1 ∷ act_message 2 2 (edit_action codec target [] (7 ∷ [])) ∷ [];
  actions_state = no_actions;
}

edited :
    HashMap.get target
      (rebuild_actions_state_with_permissions codec toy two_messages [] none
        none).actions_state.edited_content
    ≡ some (7 ∷ [])
unfolding rebuild_actions_state_with_permissions public_action edit_action
    free_talk.Message.Actions.act_edit free_talk.Message.Body.edit_payload
    free_talk.Message.Body.is_category free_talk.Message.Actions.is_author message_id
edited = refl

deleted :
    contains
      (rebuild_actions_state_with_permissions codec toy three_messages [] none
        none).actions_state.deleted
      target
    ≡ true
unfolding rebuild_actions_state_with_permissions public_action delete_action
    free_talk.Message.Actions.act_delete free_talk.Message.Actions.is_author message_id edit_action
    free_talk.Message.Actions.act_edit free_talk.Message.Body.edit_payload
    free_talk.Message.Body.is_category
deleted = refl

rebuild_deleted_clean_example :
    (HashMap.get target
        (rebuild_actions_state_with_permissions codec toy three_messages [] none
          none).actions_state.edited_content
      ≡ none)
    × (HashMap.get target
          (rebuild_actions_state_with_permissions codec toy three_messages [] none
            none).actions_state.edited_categories
        ≡ none)
rebuild_deleted_clean_example =
    rebuild_deleted_clean codec toy three_messages [] none none target deleted

-- The message without a member as author goes, and the others are sorted.
abbrev accepted : MessagesV1
accepted = record { messages = message 2 1 ∷ message 3 4 ∷ []; actions_state = no_actions }

applied :
    apply_delta toy codec
      (record { messages = message 3 4 ∷ []; actions_state = no_actions })
      here
      parameters
      (some (message 8 2 ∷ message 2 1 ∷ []))
    ≡ ok accepted
unfolding apply_delta check_content is_private_mode free_talk.Message.Apply.settle
    free_talk.Message.Actions.rebuild_actions_state free_talk.Shared.Order.sort_by
    free_talk.Message.Apply.stays content_len member_id free_talk.Message.Apply.unseen message_id
    owner_id message_le
applied = refl

apply_delta-IsAllowed_example :
    All (IsAllowed toy codec here parameters) accepted.messages
    × SortedBy (message_le toy) accepted.messages
apply_delta-IsAllowed_example =
    apply_delta-IsAllowed toy codec here parameters
      (record { messages = message 3 4 ∷ []; actions_state = no_actions }) accepted
      (some (message 8 2 ∷ message 2 1 ∷ [])) applied

-- The members 1, 2 and 3 have the secret of the second version.
abbrev secret_for : ℕ → AuthorizedEncryptedSecretForMember
secret_for id = record {
  secret = record {
    member_id = id;
    secret_version = 2;
    ciphertext = [];
    nonce = [];
    sender_ephemeral_public_key = [];
    provider = 9;
  };
  owner_signature = 9 ∷ 8 ∷ id ∷ 2 ∷ [];
}

abbrev second : BoardSecretsV1
second = record {
  current_version = 2;
  versions =
      record {
        payload = record { version = 2; cipher_spec = BoardCipherSpec.aes256_gcm; created_at = 0 };
        owner_signature = 9 ∷ 7 ∷ 2 ∷ [];
      }
      ∷ [];
  encrypted_secrets = secret_for 1 ∷ secret_for 2 ∷ secret_for 3 ∷ [];
}

abbrev private_board : ChatBoardStateV1
private_board = record {
  configuration = record {
    configuration = record {
      owner_member_id = 9;
      configuration_version = 1;
      privacy_mode = PrivacyMode.private;
      display = (settings 1 2 2).display;
      max_user_bans = 2;
      max_message_size = 100;
      max_title_size = 10;
      max_nickname_size = 10;
      max_admins = 2;
      max_board_name = 10;
      max_board_description = 10;
    };
    signature = [];
  };
  admin = [];
  bans = [];
  members = three_members;
  member_info = [];
  secrets = second;
  recent_messages = here.recent_messages;
  upgrade = none;
  version = 1;
}

abbrev sealed : AuthorizedMessageV1
sealed = record {
  message = record {
    board_owner = 9;
    author = 2;
    time = 1;
    content = BoardMessageBody.private 1 1 (4 ∷ []) [] 2;
  };
  signature = 2 ∷ 6 ∷ 2 ∷ 1 ∷ [];
}

sealed_applied :
    apply_delta toy codec no_messages private_board parameters (some (sealed ∷ []))
    ≡ ok (record { messages = sealed ∷ []; actions_state = no_actions })
unfolding apply_delta check_content is_private_mode has_complete_distribution
    free_talk.Message.Apply.settle free_talk.Message.Actions.rebuild_actions_state
    free_talk.Shared.Order.sort_by free_talk.Message.Apply.unseen free_talk.Message.Apply.stays
    content_len member_id
sealed_applied = refl

apply_delta_private_example :
    All (IsSealed toy private_board) (sealed ∷ [])
    × All
        (λ m.
          (was_there toy private_board codec parameters no_messages m ≡ true)
          ⊎ IsSealed toy private_board m)
        (sealed ∷ [])
unfolding is_private_mode
apply_delta_private_example =
    apply_delta_private toy private_board codec parameters no_messages
      (record { messages = sealed ∷ []; actions_state = no_actions }) (sealed ∷ []) refl
      sealed_applied

-- A message in the name of member 2 that nobody signed.
abbrev forged : AuthorizedMessageV1
forged = record {
  message = record {
    board_owner = 9;
    author = 2;
    time = 1;
    content = BoardMessageBody.public 77 1 [];
  };
  signature = [];
}

apply_delta_forged_example :
    (r : MessagesV1) × (apply_delta toy codec no_messages here parameters (some (forged ∷ []))
      ≡ ok r)
    × (r.messages ≡ forged ∷ [])
    × (verify toy r here parameters ≡ err (invalid_message_signature (message_id toy forged)))
unfolding member_id owner_id validate check_content content_len is_private_mode
apply_delta_forged_example =
    apply_delta_forged toy codec here parameters forged (member 2 1) refl (omega arith)
      (λ h. omega (arith, h)) refl refl refl
