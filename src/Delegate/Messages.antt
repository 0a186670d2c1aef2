-- ===== src/Delegate/Messages.antt =====
-- common/src/chat_delegate.rs, context.rs and models.rs of the delegate, and the messages of the
-- host that the delegate tells apart. A text of an error is a constructor with the values in it.
use free_talk.Shared.{ℕ, Bool, List, Option, Result}
use free_talk.Model.{Bytes, VerifyingKey, SigningKey, Signature}

abbrev pub BoardKey : Type 0
BoardKey = Bytes

abbrev pub RequestId : Type 0
RequestId = ℕ

abbrev pub ChatDelegateKey : Type 0
ChatDelegateKey = Bytes

-- The attested identity of the caller.
abbrev pub Origin : Type 0
Origin = Bytes

abbrev pub KeyIndex : Type 0
KeyIndex = List ChatDelegateKey

pub data ChatDelegateRequestMsg : Type 0 where
  store_request : (key : ChatDelegateKey) (value : Bytes) → ChatDelegateRequestMsg
  get_request delete_request : (key : ChatDelegateKey) → ChatDelegateRequestMsg
  list_request : ChatDelegateRequestMsg
  store_signing_key :
      (board_key : BoardKey) (signing_key_bytes : SigningKey) → ChatDelegateRequestMsg
  get_public_key : (board_key : BoardKey) → ChatDelegateRequestMsg
  sign_message sign_member sign_ban sign_config :
      (board_key : BoardKey) (request_id : RequestId) (to_sign : Bytes) → ChatDelegateRequestMsg
  sign_member_info sign_secret_version sign_encrypted_secret sign_upgrade sign_admin :
      (board_key : BoardKey) (request_id : RequestId) (to_sign : Bytes) → ChatDelegateRequestMsg

-- The errors that a `SignResponse` carries.
pub data SignError : Type 0 where
  invalid_key_length : (found : ℕ) → SignError
  key_not_found : SignError

-- The results that the delegate sends with a response of a write are always `Ok(())`.
pub data ChatDelegateResponseMsg : Type 0 where
  get_response : (key : ChatDelegateKey) (value : Option Bytes) → ChatDelegateResponseMsg
  list_response : (keys : List ChatDelegateKey) → ChatDelegateResponseMsg
  store_response :
      (key : ChatDelegateKey) (value_size : ℕ) (result : Result SignError (Unit {0}))
      → ChatDelegateResponseMsg
  delete_response :
      (key : ChatDelegateKey) (result : Result SignError (Unit {0})) → ChatDelegateResponseMsg
  store_signing_key_response :
      (board_key : BoardKey) (result : Result SignError (Unit {0})) → ChatDelegateResponseMsg
  get_public_key_response :
      (board_key : BoardKey) (public_key : Option VerifyingKey) → ChatDelegateResponseMsg
  sign_response :
      (board_key : BoardKey) (request_id : RequestId) (signature : Result SignError Signature)
      → ChatDelegateResponseMsg

-- What the delegate reads and sets of the host's `ApplicationMessage`.
pub record ApplicationMessage : Type 0 where
  pub payload : Bytes
  pub processed : Bool

pub data InboundDelegateMsg : Type 0 where
  application_message : (message : ApplicationMessage) → InboundDelegateMsg
  user_response get_contract_response put_contract_response : InboundDelegateMsg
  update_contract_response subscribe_contract_response : InboundDelegateMsg
  contract_notification delegate_message : InboundDelegateMsg

pub data DelegateError : Type 0 where
  missing_origin : (message : InboundDelegateMsg) → DelegateError
  already_processed : DelegateError
  unexpected_message : (message : InboundDelegateMsg) → DelegateError
  unread_request unwritten_response unwritten_index : DelegateError
  secret_refused signing_key_refused index_refused : DelegateError
