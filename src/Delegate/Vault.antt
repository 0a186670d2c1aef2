-- ===== src/Delegate/Vault.antt =====
-- What the delegate promises to one origin: a drawer of values in the order in which their keys were
-- first stored, and a drawer of signing keys, with nothing of how secrets are named or indexed.
-- The requests are those of common/src/chat_delegate.rs.
use free_talk.Shared.{
  List, [], ◌∷◌, none, some, ok, err, ◌≡◌, ◌≢◌, ◌==◌, list_eq, nat_eq, length, if◌then◌else◌,
}
use free_talk.Shared.HashMap
use free_talk.Shared.HashMap.{HashMap}
use mathlib.Core.Option
use free_talk.Model.{Bytes, Crypto, SigningKey}
use free_talk.Delegate.Messages.{
  BoardKey, RequestId, ChatDelegateKey, Origin, ChatDelegateRequestMsg, store_request, get_request,
  delete_request, list_request, store_signing_key, get_public_key, sign_message, sign_member,
  sign_ban, sign_config, sign_member_info, sign_secret_version, sign_encrypted_secret, sign_upgrade,
  sign_admin, key_not_found, ChatDelegateResponseMsg, get_response, list_response, store_response,
  delete_response, store_signing_key_response, get_public_key_response, sign_response,
}
use free_talk.Delegate.Host.{Formats}
use free_talk.Delegate.Names.{key_index_suffix}

pub record Drawer : Type 0 where
  pub values : HashMap ChatDelegateKey Bytes
  pub signing_keys : HashMap BoardKey SigningKey

abbrev pub empty : Drawer
empty = record { values = []; signing_keys = [] }

module _ (c : Crypto) where
  abbrev pub sign_answer : Drawer → BoardKey → RequestId → Bytes → ChatDelegateResponseMsg
  sign_answer d b id m = sign_response b id (elim (HashMap.get b d.signing_keys) [
    | none ↦ err key_not_found
    | some sk ↦ ok (c.sign sk m)
  ])

  unfoldable pub answer : Drawer → ChatDelegateRequestMsg → Drawer × ChatDelegateResponseMsg
  answer d (store_request k v) =
      (record d { values = HashMap.insert k v d.values }, store_response k (length v) (ok tt))
  answer d (get_request k) = (d, get_response k (HashMap.get k d.values))
  answer d (delete_request k) =
      (record d { values = HashMap.remove k d.values }, delete_response k (ok tt))
  answer d list_request = (d, list_response (HashMap.keys d.values))
  answer d (store_signing_key b sk) = (
    record d { signing_keys = HashMap.insert b sk d.signing_keys },
    store_signing_key_response b (ok tt),
  )
  answer d (get_public_key b) =
      (d, get_public_key_response b (Option.map c.verifying_key (HashMap.get b d.signing_keys)))
  answer d (sign_message b id m) = (d, sign_answer d b id m)
  answer d (sign_member b id m) = (d, sign_answer d b id m)
  answer d (sign_ban b id m) = (d, sign_answer d b id m)
  answer d (sign_config b id m) = (d, sign_answer d b id m)
  answer d (sign_member_info b id m) = (d, sign_answer d b id m)
  answer d (sign_secret_version b id m) = (d, sign_answer d b id m)
  answer d (sign_encrypted_secret b id m) = (d, sign_answer d b id m)
  answer d (sign_upgrade b id m) = (d, sign_answer d b id m)
  answer d (sign_admin b id m) = (d, sign_answer d b id m)

  unfoldable pub answers_of : Drawer → List ChatDelegateRequestMsg → List ChatDelegateResponseMsg
  unfolding answer
  answers_of d [] = []
  answers_of d (r ∷ rs) = (answer d r).1 ∷ answers_of (answer d r).0 rs

-- A key that is UTF-8 and is not the suffix of an index.
abbrev pub IsPlain : Formats → ChatDelegateKey → Type 0
IsPlain f k = (f.from_utf8_lossy k ≡ k) × (k ≢ key_index_suffix)

-- A request with a plain key, if it has one, and with a signing key of 32 bytes, if it has one.
abbrev pub IsPlainRequest : Formats → ChatDelegateRequestMsg → Type 0
IsPlainRequest f (store_request k v) = IsPlain f k
IsPlainRequest f (get_request k) = IsPlain f k
IsPlainRequest f (delete_request k) = IsPlain f k
IsPlainRequest f (store_signing_key b sk) = length sk ≡ 32
IsPlainRequest f _ = Unit

-- The requests of an origin.
abbrev pub requests_of :
    Origin → List (Origin × ChatDelegateRequestMsg) → List ChatDelegateRequestMsg
requests_of o [] = []
requests_of o ((a, r) ∷ requests) =
    if a == o then r ∷ requests_of o requests else requests_of o requests
