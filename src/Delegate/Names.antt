-- ===== src/Delegate/Names.antt =====
-- The names under which secrets are stored: freetalk-delegate/src/utils.rs and models.rs, and
-- `create_signing_key_secret_key` of handlers.rs. `format!` is concatenation.
use free_talk.Shared.{◌++◌}
use free_talk.Model.{Bytes, Text, ascii}
use free_talk.Delegate.Messages.{Origin, ChatDelegateKey, BoardKey}
use free_talk.Delegate.Host.{Formats}

abbrev pub origin_key_separator : Text
origin_key_separator = ascii ":"

abbrev pub key_index_suffix : Text
key_index_suffix = ascii "::key_index"

module _ (f : Formats) where
  unfoldable pub to_b58 : Origin → Text
  to_b58 origin = f.bs58_encode origin

  unfoldable pub create_origin_key : Origin → ChatDelegateKey → Bytes
  unfolding to_b58
  create_origin_key origin key = to_b58 origin ++ (origin_key_separator ++ f.from_utf8_lossy key)

  unfoldable pub create_index_key : Origin → Bytes
  unfolding to_b58
  create_index_key origin = to_b58 origin ++ (origin_key_separator ++ key_index_suffix)

  unfoldable pub create_signing_key_secret_key : Origin → BoardKey → Bytes
  create_signing_key_secret_key origin board_key =
      ascii "signing_key"
      ++ (ascii ":" ++ (f.bs58_encode origin ++ (ascii ":" ++ f.bs58_encode board_key)))
