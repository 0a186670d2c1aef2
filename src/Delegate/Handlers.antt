-- ===== src/Delegate/Handlers.antt =====
-- freetalk-delegate/src/handlers.rs, `create_app_response` of utils.rs and `process` of lib.rs, as
-- they are compiled for the host (wasm), where a write that the host refuses is an error.
use free_talk.Shared.{
  true, not, List, [], ◌∷◌, ◌++◌, Option, none, some, Result, ok, err, length, contains, retain,
  ◌==◌, list_eq, nat_eq, if◌then◌else◌,
}
use free_talk.Model.{Bytes, Crypto, VerifyingKey, SigningKey, Signature}
use free_talk.Delegate.Messages.{
  BoardKey, RequestId, ChatDelegateKey, Origin, KeyIndex, ChatDelegateRequestMsg, store_request,
  get_request, delete_request, list_request, store_signing_key, get_public_key, sign_message,
  sign_member, sign_ban, sign_config, sign_member_info, sign_secret_version, sign_encrypted_secret,
  sign_upgrade, sign_admin, SignError, invalid_key_length, key_not_found, ChatDelegateResponseMsg,
  get_response, list_response, store_response, delete_response, store_signing_key_response,
  get_public_key_response, sign_response, ApplicationMessage, InboundDelegateMsg,
  application_message, missing_origin, already_processed, unexpected_message, unread_request,
  unwritten_response, unwritten_index, secret_refused, signing_key_refused, index_refused,
}
use free_talk.Delegate.Host.{
  Host, Formats, M, ◌>>=◌, ◌>>◌, answers, written, set_secret, get_secret, remove_secret,
}
use free_talk.Delegate.Names.{create_origin_key, create_index_key, create_signing_key_secret_key}

-- `get_key_index`, of what the store has
unfoldable pub index_read : Formats → Option Bytes → KeyIndex
index_read f none = []
index_read f (some b) = elim (f.read_index b) [ none ↦ [] | some keys ↦ keys ]

module _ (h : Host) (f : Formats) (c : Crypto) where
  unfoldable pub create_app_response : ChatDelegateResponseMsg → M h (List ApplicationMessage)
  create_app_response response = do
    b ← answers (written unwritten_response (f.write_response response))
    answers (ok (record { payload = b; processed = true } ∷ []))

  unfoldable pub get_key_index : Bytes → M h KeyIndex
  unfolding index_read
  get_key_index index_key = do stored ← get_secret h index_key; answers (ok (index_read f stored))

  unfoldable pub set_key_index : Bytes → KeyIndex → M h (Unit {0})
  set_key_index index_key keys = do
    b ← answers (written unwritten_index (f.write_index keys))
    set_secret h index_refused index_key b

  unfoldable pub handle_store_request :
      Origin → ChatDelegateKey → Bytes → M h (List ApplicationMessage)
  unfolding get_key_index set_key_index create_app_response
  handle_store_request origin key value = do
    set_secret h secret_refused (create_origin_key f origin key) value
    keys ← get_key_index (create_index_key f origin)
    if contains keys key
        then answers (ok tt)
        else set_key_index (create_index_key f origin) (keys ++ key ∷ [])
    create_app_response (store_response key (length value) (ok tt))

  unfoldable pub handle_get_request : Origin → ChatDelegateKey → M h (List ApplicationMessage)
  unfolding create_app_response
  handle_get_request origin key = do
    value ← get_secret h (create_origin_key f origin key)
    create_app_response (get_response key value)

  unfoldable pub handle_delete_request : Origin → ChatDelegateKey → M h (List ApplicationMessage)
  unfolding get_key_index set_key_index create_app_response
  handle_delete_request origin key = do
    remove_secret h (create_origin_key f origin key)
    keys ← get_key_index (create_index_key f origin)
    set_key_index (create_index_key f origin) (retain (λ k. not (k == key)) keys)
    create_app_response (delete_response key (ok tt))

  unfoldable pub handle_list_request : Origin → M h (List ApplicationMessage)
  unfolding get_key_index create_app_response
  handle_list_request origin = do
    keys ← get_key_index (create_index_key f origin)
    create_app_response (list_response keys)

  unfoldable pub handle_store_signing_key :
      Origin → BoardKey → SigningKey → M h (List ApplicationMessage)
  unfolding create_app_response
  handle_store_signing_key origin board_key signing_key_bytes = do
    set_secret h signing_key_refused (create_signing_key_secret_key f origin board_key)
        signing_key_bytes
    create_app_response (store_signing_key_response board_key (ok tt))

  -- The closure of `handle_get_public_key`.
  unfoldable pub public_key_of : Bytes → Option VerifyingKey
  public_key_of sk_bytes = if length sk_bytes == 32 then some (c.verifying_key sk_bytes) else none

  abbrev pub and_public_key : Option Bytes → Option VerifyingKey
  and_public_key none = none
  and_public_key (some sk_bytes) = public_key_of sk_bytes

  unfoldable pub handle_get_public_key : Origin → BoardKey → M h (List ApplicationMessage)
  unfolding create_app_response public_key_of
  handle_get_public_key origin board_key = do
    stored ← get_secret h (create_signing_key_secret_key f origin board_key)
    create_app_response (get_public_key_response board_key (and_public_key stored))

  -- The `match` of `handle_sign_request`.
  unfoldable pub signature_of : Option Bytes → Bytes → Result SignError Signature
  signature_of none data_to_sign = err key_not_found
  signature_of (some sk_bytes) data_to_sign =
      if length sk_bytes == 32
      then ok (c.sign sk_bytes data_to_sign)
      else err (invalid_key_length (length sk_bytes))

  unfoldable pub handle_sign_request :
      Origin → BoardKey → RequestId → Bytes → M h (List ApplicationMessage)
  unfolding create_app_response signature_of
  handle_sign_request origin board_key request_id data_to_sign = do
    stored ← get_secret h (create_signing_key_secret_key f origin board_key)
    create_app_response (sign_response board_key request_id (signature_of stored data_to_sign))

  -- The `match` of `handle_application_message`.
  unfoldable pub handle_request : Origin → ChatDelegateRequestMsg → M h (List ApplicationMessage)
  handle_request origin (store_request key value) = handle_store_request origin key value
  handle_request origin (get_request key) = handle_get_request origin key
  handle_request origin (delete_request key) = handle_delete_request origin key
  handle_request origin list_request = handle_list_request origin
  handle_request origin (store_signing_key b sk) = handle_store_signing_key origin b sk
  handle_request origin (get_public_key b) = handle_get_public_key origin b
  handle_request origin (sign_message b id m) = handle_sign_request origin b id m
  handle_request origin (sign_member b id m) = handle_sign_request origin b id m
  handle_request origin (sign_ban b id m) = handle_sign_request origin b id m
  handle_request origin (sign_config b id m) = handle_sign_request origin b id m
  handle_request origin (sign_member_info b id m) = handle_sign_request origin b id m
  handle_request origin (sign_secret_version b id m) = handle_sign_request origin b id m
  handle_request origin (sign_encrypted_secret b id m) = handle_sign_request origin b id m
  handle_request origin (sign_upgrade b id m) = handle_sign_request origin b id m
  handle_request origin (sign_admin b id m) = handle_sign_request origin b id m

  abbrev pub handle_read : Origin → Option ChatDelegateRequestMsg → M h (List ApplicationMessage)
  handle_read origin none = answers (err unread_request)
  handle_read origin (some request) = handle_request origin request

  unfoldable pub handle_application_message :
      ApplicationMessage → Origin → M h (List ApplicationMessage)
  unfolding handle_request
  handle_application_message app_msg origin = handle_read origin (f.read_request app_msg.payload)

  -- The second `match` of `process`, where the origin is known.
  unfoldable pub process_from : Origin → InboundDelegateMsg → M h (List ApplicationMessage)
  process_from origin (application_message app_msg) =
      if app_msg.processed
      then answers (err already_processed)
      else handle_application_message app_msg origin
  process_from origin other = answers (err (unexpected_message other))

  unfoldable pub process : Option Origin → InboundDelegateMsg → M h (List ApplicationMessage)
  unfolding process_from
  process none message = answers (err (missing_origin message))
  process (some origin) message = process_from origin message
