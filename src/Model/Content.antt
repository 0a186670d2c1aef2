-- ===== src/Model/Content.antt =====
-- The content records of common/src/board_state/content.rs. `Cbor` is the `ciborium` crate at
-- these types: `decode_*` is `from_reader`, which fails on bytes that it cannot read.
use free_talk.Shared.{ℕ, Option, some, ◌≡◌}
use free_talk.Model.Privacy.{MessageId, Text, Bytes}

abbrev pub content_type_text : ℕ
content_type_text = 1

abbrev pub content_type_action : ℕ
content_type_action = 2

abbrev pub content_type_reply : ℕ
content_type_reply = 3

abbrev pub content_type_category : ℕ
content_type_category = 4

abbrev pub action_content_version : ℕ
action_content_version = 1

abbrev pub action_type_edit : ℕ
action_type_edit = 1

abbrev pub action_type_delete : ℕ
action_type_delete = 2

abbrev pub action_type_reaction : ℕ
action_type_reaction = 3

abbrev pub action_type_remove_reaction : ℕ
action_type_remove_reaction = 4

abbrev pub action_type_edit_category : ℕ
action_type_edit_category = 5

pub record TextContentV1 : Type 0 where
  pub title : Text
  pub content : Text

pub record ActionContentV1 : Type 0 where
  pub action_type : ℕ
  pub target : MessageId
  pub payload : Bytes

pub record EditPayload : Type 0 where
  pub new_title : Text
  pub new_text : Text

pub record ReactionPayload : Type 0 where
  pub emoji : Text

pub record CategoryEditPayload : Type 0 where
  pub new_name : Text
  pub new_description : Option Text
  pub new_icon : Option Text
  pub new_color : Text

pub record ReplyContentV1 : Type 0 where
  pub title : Text
  pub content : Text
  pub target_message_id : MessageId
  pub target_author_name : Text
  pub target_content_preview : Text

pub record CategoryContentV1 : Type 0 where
  pub name : Text
  pub description : Option Text
  pub icon : Option Text
  pub color : Text
  pub parent_category_id : Option MessageId

pub data DecodedContent : Type 0 where
  text : TextContentV1 → DecodedContent
  action : ActionContentV1 → DecodedContent
  reply : ReplyContentV1 → DecodedContent
  category : CategoryContentV1 → DecodedContent
  unknown : (content_type content_version : ℕ) → DecodedContent

pub record Cbor : Type 0 where
  pub encode_text : TextContentV1 → Bytes
  pub decode_text : Bytes → Option TextContentV1
  pub encode_action : ActionContentV1 → Bytes
  pub decode_action : Bytes → Option ActionContentV1
  pub encode_reply : ReplyContentV1 → Bytes
  pub decode_reply : Bytes → Option ReplyContentV1
  pub encode_category : CategoryContentV1 → Bytes
  pub decode_category : Bytes → Option CategoryContentV1
  pub encode_edit : EditPayload → Bytes
  pub decode_edit : Bytes → Option EditPayload
  pub encode_reaction : ReactionPayload → Bytes
  pub decode_reaction : Bytes → Option ReactionPayload
  pub encode_category_edit : CategoryEditPayload → Bytes
  pub decode_category_edit : Bytes → Option CategoryEditPayload

-- The crate's documented round trip, at the records that the actions are made of.
pub record ReadsBack (c : Cbor) : Type 0 where
  pub action : (a : ActionContentV1) → c.decode_action (c.encode_action a) ≡ some a
  pub edit : (p : EditPayload) → c.decode_edit (c.encode_edit p) ≡ some p
  pub reaction : (p : ReactionPayload) → c.decode_reaction (c.encode_reaction p) ≡ some p
  pub category_edit :
      (p : CategoryEditPayload) → c.decode_category_edit (c.encode_category_edit p) ≡ some p
