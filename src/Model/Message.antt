-- ===== src/Model/Message.antt =====
-- The records of common/src/board_state/message.rs.
use free_talk.Shared.{ℕ, List}
use free_talk.Shared.HashMap.{HashMap}
use free_talk.Shared.HashSet.{HashSet}
use free_talk.Model.Privacy.{MemberId, MessageId, Signature, SystemTime, SecretVersion, Bytes, Text}
use free_talk.Model.Content.{CategoryEditPayload}

pub data BoardMessageBody : Type 0 where
  public : (content_type content_version : ℕ) (content : Bytes) → BoardMessageBody
  private :
      (content_type content_version : ℕ) (ciphertext nonce : Bytes) (secret_version : SecretVersion)
      → BoardMessageBody

pub record MessageV1 : Type 0 where
  pub board_owner : MemberId
  pub author : MemberId
  pub time : SystemTime
  pub content : BoardMessageBody

pub record AuthorizedMessageV1 : Type 0 where
  pub message : MessageV1
  pub signature : Signature

pub record MessageActionsState : Type 0 where
  pub edited_content : HashMap MessageId Text
  pub edited_categories : HashMap MessageId CategoryEditPayload
  pub deleted : HashSet MessageId
  pub reactions : HashMap MessageId (HashMap Text (List MemberId))

pub record MessagesV1 : Type 0 where
  pub messages : List AuthorizedMessageV1
  pub actions_state : MessageActionsState
