-- ===== src/Message/Apply.antt =====
-- common/src/board_state/message.rs: the verification of the messages, and their summaries and deltas.
use free_talk.Shared.{
  ℕ, Bool, not, ◌||◌, ◌&&◌, List, ◌++◌, Option, none, some, Result, ok, err, ◌>>◌, ensure, reject,
  for_each, if◌then◌else◌, length, is_empty, contains, map, retain, ltb, leb, ◌==◌, nat_eq,
}
use free_talk.Shared.HashMap
use free_talk.Shared.HashMap.{HashMap}
use free_talk.Shared.HashSet
use free_talk.Shared.HashSet.{HashSet}
use free_talk.Shared.Order.{sort_by}
use free_talk.Model.{
  Crypto, Cbor, Signable, VerifyingKey, SigningKey, Text, MemberId, MessageId, BoardMessageBody,
  MessageV1, AuthorizedMessageV1, MessagesV1, AuthorizedMember, ChatBoardStateV1,
  ChatBoardParametersV1, Error, author_not_found, invalid_message_signature, title_too_long,
  title_with_newline, wrong_secret_version, incomplete_distribution, public_in_private_board,
  sign_struct, verify_struct, message_id,
}
use free_talk.Configuration.{is_private_mode}
use free_talk.Member.Chain.{owner_id, members_by_member_id}
use free_talk.Secret.{has_complete_distribution}
use free_talk.Message.Body.{title, content_len}
use free_talk.Message.Actions.{rebuild_actions_state}

abbrev pub max_message_size : ChatBoardStateV1 → ℕ
max_message_size s = s.configuration.configuration.max_message_size

-- The checks of a title: line feed is 10 and carriage return 13.
unfoldable pub check_title : Option Text → (max_title_size : ℕ) → Result Error (Unit {0})
check_title none max = ok tt
check_title (some title) max =
    reject (ltb max (length title)) (title_too_long (length title) max)
    >> reject (contains title 10 || contains title 13) title_with_newline

module _ (c : Crypto) where
  -- `AuthorizedMessageV1::new`
  unfoldable pub new : MessageV1 → SigningKey → AuthorizedMessageV1
  unfolding sign_struct
  new message signing_key = record {
    message = message;
    signature = sign_struct c (Signable.message message) signing_key;
  }

  unfoldable pub validate : AuthorizedMessageV1 → VerifyingKey → Bool
  unfolding verify_struct
  validate m key = verify_struct c (Signable.message m.message) m.signature key

  -- The body of the loop of `verify`.
  unfoldable pub check_message :
      HashMap MemberId AuthorizedMember
      → ChatBoardParametersV1
      → AuthorizedMessageV1
      → Result Error (Unit {0})
  check_message members_by_id parameters m =
      if m.message.author == owner_id c parameters
      then ensure (validate m parameters.owner) (invalid_message_signature (message_id c m))
      else elim (HashMap.get m.message.author members_by_id) [
        | none ↦ err (author_not_found m.message.author)
        | some x ↦
            ensure (validate m x.member.member_vk) (invalid_message_signature (message_id c m))
      ]

  unfoldable pub verify :
      MessagesV1 → ChatBoardStateV1 → ChatBoardParametersV1 → Result Error (Unit {0})
  unfolding check_message
  verify self parent_state parameters =
      for_each (check_message (members_by_member_id c parent_state.members) parameters)
        self.messages

  unfoldable pub summarize : MessagesV1 → List MessageId
  summarize self = map (message_id c) self.messages

  unfoldable pub delta : MessagesV1 → List MessageId → Option (List AuthorizedMessageV1)
  delta self old_state_summary =
      let delta = retain (λ m. not (contains old_state_summary (message_id c m))) self.messages in
      if is_empty delta then none else some delta

  -- The `match` on the body, in the loop of `apply_delta`.
  unfoldable pub check_privacy : ChatBoardStateV1 → BoardMessageBody → Result Error (Unit {0})
  check_privacy parent_state (BoardMessageBody.private t v d n secret_version) =
      reject
        (is_private_mode parent_state.configuration.configuration.privacy_mode
          && not (secret_version == parent_state.secrets.current_version))
        (wrong_secret_version secret_version parent_state.secrets.current_version)
      >> ensure
          (has_complete_distribution parent_state.secrets
            (members_by_member_id c parent_state.members))
          incomplete_distribution
  check_privacy parent_state (BoardMessageBody.public t v d) =
      reject (is_private_mode parent_state.configuration.configuration.privacy_mode)
        public_in_private_board

  -- By time, then by identifier.
  unfoldable pub message_le : AuthorizedMessageV1 → AuthorizedMessageV1 → Bool
  message_le a b =
      ltb a.message.time b.message.time
      || (a.message.time == b.message.time && leb (message_id c a) (message_id c b))

  -- The two retentions.
  unfoldable pub stays : ChatBoardStateV1 → ChatBoardParametersV1 → AuthorizedMessageV1 → Bool
  stays parent_state parameters m =
      leb (content_len m.message.content) (max_message_size parent_state)
      && (HashMap.contains_key m.message.author (members_by_member_id c parent_state.members)
          || m.message.author == owner_id c parameters)

  -- The messages that a delta adds.
  unfoldable pub unseen : MessagesV1 → List AuthorizedMessageV1 → List AuthorizedMessageV1
  unseen self delta =
      let existing_ids = HashSet.collect (map (message_id c) self.messages) in
      retain (λ m. not (contains existing_ids (message_id c m))) delta

  module _ (b : Cbor) where
    -- The body of the loop of `apply_delta`.
    unfoldable pub check_content : ChatBoardStateV1 → AuthorizedMessageV1 → Result Error (Unit {0})
    unfolding check_title check_privacy title
    check_content parent_state m =
        check_title (title b m.message.content)
          parent_state.configuration.configuration.max_title_size
        >> check_privacy parent_state m.message.content

    -- What follows the delta's messages: the retentions, the sorting, and the computed state.
    unfoldable pub settle :
        ChatBoardStateV1
        → ChatBoardParametersV1
        → List AuthorizedMessageV1
        → MessagesV1
        → MessagesV1
    settle parent_state parameters messages self = rebuild_actions_state b c (record {
      messages = sort_by message_le (retain (stays parent_state parameters) messages);
      actions_state = self.actions_state;
    })

    unfoldable pub apply_delta :
        MessagesV1
        → ChatBoardStateV1
        → ChatBoardParametersV1
        → Option (List AuthorizedMessageV1)
        → Result Error MessagesV1
    apply_delta self parent_state parameters none =
        ok (settle parent_state parameters self.messages self)
    apply_delta self parent_state parameters (some delta) =
        for_each (check_content parent_state) delta
        >> ok (settle parent_state parameters (self.messages ++ unseen self delta) self)
