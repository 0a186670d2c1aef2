-- ===== src/Message/Body.antt =====
-- common/src/board_state/message.rs: the body of a message, and common/src/board_state/content.rs: what
-- actions and categories hold.
use free_talk.Shared.{
  ℕ, Bool, true, false, ◌||◌, [], Option, none, some, if◌then◌else◌, length, ◌==◌, nat_eq,
}
use mathlib.Core.Option
use free_talk.Model.{
  Bytes, Text, MessageId, SecretVersion, BoardMessageBody, DecodedContent, TextContentV1,
  ActionContentV1, EditPayload, ReactionPayload, CategoryEditPayload, ReplyContentV1,
  CategoryContentV1, Cbor, content_type_text, content_type_action, content_type_reply,
  content_type_category, action_content_version, action_type_edit, action_type_delete,
  action_type_reaction, action_type_remove_reaction, action_type_edit_category,
}

abbrev pub text_content_version : ℕ
text_content_version = 1

abbrev pub reply_content_version : ℕ
reply_content_version = 1

abbrev pub category_content_version : ℕ
category_content_version = 1

unfoldable pub is_public : BoardMessageBody → Bool
is_public (BoardMessageBody.public t v d) = true
is_public (BoardMessageBody.private t v d n s) = false

unfoldable pub is_private : BoardMessageBody → Bool
is_private (BoardMessageBody.public t v d) = false
is_private (BoardMessageBody.private t v d n s) = true

unfoldable pub content_type : BoardMessageBody → ℕ
content_type (BoardMessageBody.public t v d) = t
content_type (BoardMessageBody.private t v d n s) = t

unfoldable pub content_version : BoardMessageBody → ℕ
content_version (BoardMessageBody.public t v d) = v
content_version (BoardMessageBody.private t v d n s) = v

unfoldable pub is_action : BoardMessageBody → Bool
unfolding content_type
is_action b = content_type b == content_type_action

unfoldable pub is_category : BoardMessageBody → Bool
unfolding content_type
is_category b = content_type b == content_type_category

unfoldable pub content_len : BoardMessageBody → ℕ
content_len (BoardMessageBody.public t v d) = length d
content_len (BoardMessageBody.private t v d n s) = length d

unfoldable pub body_secret_version : BoardMessageBody → Option SecretVersion
body_secret_version (BoardMessageBody.public t v d) = none
body_secret_version (BoardMessageBody.private t v d n s) = some s

-- `BoardMessageBody::private_action`
unfoldable pub private_action : (ciphertext nonce : Bytes) → SecretVersion → BoardMessageBody
private_action ciphertext nonce secret_version =
    BoardMessageBody.private content_type_action action_content_version ciphertext nonce
      secret_version

unfoldable pub as_text : DecodedContent → Option Text
as_text (DecodedContent.text t) = some t.content
as_text (DecodedContent.action a) = none
as_text (DecodedContent.reply r) = some r.content
as_text (DecodedContent.category k) = k.description
as_text (DecodedContent.unknown t v) = none

-- The target of a decoded action.
unfoldable pub decoded_target_id : DecodedContent → Option MessageId
decoded_target_id (DecodedContent.text t) = none
decoded_target_id (DecodedContent.action a) = some a.target
decoded_target_id (DecodedContent.reply r) = none
decoded_target_id (DecodedContent.category k) = none
decoded_target_id (DecodedContent.unknown t v) = none

module _ (b : Cbor) where
  -- `ActionContentV1::edit`
  unfoldable pub edit_action : MessageId → (new_title new_text : Text) → ActionContentV1
  edit_action target new_title new_text = record {
    action_type = action_type_edit;
    target = target;
    payload = b.encode_edit (record { new_title = new_title; new_text = new_text });
  }

  -- `ActionContentV1::delete`
  unfoldable pub delete_action : MessageId → ActionContentV1
  delete_action target = record { action_type = action_type_delete; target = target; payload = [] }

  -- `ActionContentV1::reaction`
  unfoldable pub reaction_action : MessageId → (emoji : Text) → ActionContentV1
  reaction_action target emoji = record {
    action_type = action_type_reaction;
    target = target;
    payload = b.encode_reaction (record { emoji = emoji });
  }

  -- `ActionContentV1::remove_reaction`
  unfoldable pub remove_reaction_action : MessageId → (emoji : Text) → ActionContentV1
  remove_reaction_action target emoji = record {
    action_type = action_type_remove_reaction;
    target = target;
    payload = b.encode_reaction (record { emoji = emoji });
  }

  -- `ActionContentV1::edit_category`
  unfoldable pub edit_category_action : MessageId → CategoryEditPayload → ActionContentV1
  edit_category_action target edit = record {
    action_type = action_type_edit_category;
    target = target;
    payload = b.encode_category_edit edit;
  }

  unfoldable pub edit_payload : ActionContentV1 → Option EditPayload
  edit_payload a = if a.action_type == action_type_edit then b.decode_edit a.payload else none

  unfoldable pub reaction_payload : ActionContentV1 → Option ReactionPayload
  reaction_payload a =
      if a.action_type == action_type_reaction || a.action_type == action_type_remove_reaction
      then b.decode_reaction a.payload
      else none

  unfoldable pub category_edit_payload : ActionContentV1 → Option CategoryEditPayload
  category_edit_payload a =
      if a.action_type == action_type_edit_category then b.decode_category_edit a.payload else none

  -- A public action: `BoardMessageBody::edit`, `delete`, `reaction`, `remove_reaction` and
  -- `edit_category`, of the action that each makes
  unfoldable pub public_action : ActionContentV1 → BoardMessageBody
  public_action a =
      BoardMessageBody.public content_type_action action_content_version (b.encode_action a)

  -- `BoardMessageBody::public`
  unfoldable pub public_text : (title content : Text) → BoardMessageBody
  public_text title content =
      BoardMessageBody.public content_type_text text_content_version
        (b.encode_text (record { title = title; content = content }))

  -- `BoardMessageBody::reply`
  unfoldable pub reply : ReplyContentV1 → BoardMessageBody
  reply r = BoardMessageBody.public content_type_reply reply_content_version (b.encode_reply r)

  unfoldable pub decode_content : BoardMessageBody → Option DecodedContent
  decode_content (BoardMessageBody.public t v d) =
      if t == content_type_text
      then Option.map DecodedContent.text (b.decode_text d)
      else if t == content_type_action
      then Option.map DecodedContent.action (b.decode_action d)
      else if t == content_type_reply
      then Option.map DecodedContent.reply (b.decode_reply d)
      else if t == content_type_category
      then Option.map DecodedContent.category (b.decode_category d)
      else some (DecodedContent.unknown t v)
  decode_content (BoardMessageBody.private t v d n s) = none

  -- `BoardMessageBody::target_id`
  unfoldable pub target_id : BoardMessageBody → Option MessageId
  target_id (BoardMessageBody.public t v d) =
      if t == content_type_action
      then Option.map (λ (a : ActionContentV1). a.target) (b.decode_action d)
      else none
  target_id (BoardMessageBody.private t v d n s) = none

  text_of : Option DecodedContent → Option Text
  unfolding as_text
  text_of none = none
  text_of (some c) = as_text c

  unfoldable pub as_public_string : BoardMessageBody → Option Text
  unfolding decode_content text_of
  as_public_string body = text_of (decode_content body)

  unfoldable pub title : BoardMessageBody → Option Text
  title (BoardMessageBody.public t v d) =
      if t == content_type_text
      then Option.map (λ (x : TextContentV1). x.title) (b.decode_text d)
      else if t == content_type_reply
      then Option.map (λ (x : ReplyContentV1). x.title) (b.decode_reply d)
      else if t == content_type_category
      then Option.map (λ (x : CategoryContentV1). x.name) (b.decode_category d)
      else none
  title (BoardMessageBody.private t v d n s) = none
