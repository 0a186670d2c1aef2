-- ===== src/Delegate/Own.antt =====
-- Every handler of freetalk-delegate/src/handlers.rs, and `process` of lib.rs, has to do with the
-- secrets of the calling origin alone.
use free_talk.Shared.{
  Bool, true, false, not, [], ◌∷◌, ◌++◌, Option, none, some, ok, err, ◌≡◌, sym, ◌==◌, list_eq,
  nat_eq, contains, retain, length, if◌then◌else◌,
}
use free_talk.Model.{Bytes, Crypto}
use free_talk.Delegate.Messages.{
  BoardKey, RequestId, ChatDelegateKey, Origin, KeyIndex, ChatDelegateRequestMsg, store_request,
  get_request, delete_request, list_request, store_signing_key, get_public_key, sign_message,
  sign_member, sign_ban, sign_config, sign_member_info, sign_secret_version, sign_encrypted_secret,
  sign_upgrade, sign_admin, ChatDelegateResponseMsg, InboundDelegateMsg, application_message,
  user_response, get_contract_response, put_contract_response, update_contract_response,
  subscribe_contract_response, contract_notification, delegate_message, delete_response,
  store_signing_key_response, already_processed, get_response, list_response, store_response,
  get_public_key_response, sign_response,
}
use free_talk.Delegate.Host.{Host, StoresSecrets, Formats, EncodesNames, answers}
use free_talk.Delegate.Names.{create_origin_key, create_index_key, create_signing_key_secret_key}
use free_talk.Delegate.NameLaws.{
  origin_key_split, index_key_split, origin_index_split, signing_split, origin-ne-signing,
  index-ne-signing,
}
use free_talk.Delegate.Handlers.{
  create_app_response, index_read, and_public_key, signature_of, get_key_index, set_key_index,
  handle_store_request, handle_get_request, handle_delete_request, handle_list_request,
  handle_store_signing_key, handle_get_public_key, handle_sign_request, handle_request, handle_read,
  handle_application_message, process_from,
}
use free_talk.Delegate.Effects.{
  Within, Within-answers, Within-get_secret, Within-set_secret, Within-remove_secret, Within-bind,
}

-- The names under which an origin has secrets.
pub data NameOf (f : Formats) (o : Origin) : Bytes → Type 0 where
  value : (k : ChatDelegateKey) → NameOf f o (create_origin_key f o k)
  index : NameOf f o (create_index_key f o)
  signing : (b : BoardKey) → NameOf f o (create_signing_key_secret_key f o b)

-- No name belongs to two origins.
pub NameOf-unique :
    (f : Formats)
    → EncodesNames f
    → (a b : Origin) {j k : Bytes} → NameOf f a j
    → NameOf f b k
    → j ≡ k
    → a ≡ b
NameOf-unique f n a b (value i) (value j) e = (origin_key_split f n a b i j e).0
NameOf-unique f n a b (value i) index e = (origin_index_split f n a b i e).0
NameOf-unique f n a b (value i) (signing j) e = absurd (origin-ne-signing f n a b i j e)
NameOf-unique f n a b index (value j) e = sym (origin_index_split f n b a j (sym e)).0
NameOf-unique f n a b index index e = index_key_split f n a b e
NameOf-unique f n a b index (signing j) e = absurd (index-ne-signing f n a b j e)
NameOf-unique f n a b (signing i) (value j) e = absurd (origin-ne-signing f n b a j i (sym e))
NameOf-unique f n a b (signing i) index e = absurd (index-ne-signing f n b a i (sym e))
NameOf-unique f n a b (signing i) (signing j) e = (signing_split f n a b i j e).0

module _ (h : Host) (stores : StoresSecrets h) (f : Formats) (c : Crypto) (a : Origin) where
  Within-create_app_response :
      (r : ChatDelegateResponseMsg) → Within h (NameOf f a) (create_app_response h f c r)
  unfolding create_app_response
  Within-create_app_response r =
      Within-bind h stores _ _ _ (Within-answers h stores _ _) (λ w. Within-answers h stores _ _)

  Within-get_key_index : Within h (NameOf f a) (get_key_index h f c (create_index_key f a))
  unfolding get_key_index
  Within-get_key_index =
      Within-bind h stores _ _ _ (Within-get_secret h stores _ _ index)
        (λ s. Within-answers h stores _ (ok (index_read f s)))

  Within-set_key_index :
      (keys : KeyIndex) → Within h (NameOf f a) (set_key_index h f c (create_index_key f a) keys)
  unfolding set_key_index
  Within-set_key_index keys =
      Within-bind h stores _ _ _ (Within-answers h stores _ _)
        (λ w. Within-set_secret h stores _ _ _ w index)

  Within-handle_store_request :
      (k : ChatDelegateKey) (v : Bytes) → Within h (NameOf f a) (handle_store_request h f c a k v)
  unfolding handle_store_request
  Within-handle_store_request k v =
      Within-bind h stores _ _ _ (Within-set_secret h stores _ _ _ v (value k)) (λ done.
        Within-bind h stores _ _ _ Within-get_key_index (λ keys.
          Within-bind h stores _ _ _ (listed keys (contains keys k))
            (λ done. Within-create_app_response (store_response k (length v) (ok tt)))))
    where
      listed :
          (keys : KeyIndex) (found : Bool)
          → Within h (NameOf f a) (
              if found
              then answers (ok tt)
              else set_key_index h f c (create_index_key f a) (keys ++ k ∷ []))
      listed keys true = Within-answers h stores _ _
      listed keys false = Within-set_key_index (keys ++ k ∷ [])

  Within-handle_delete_request :
      (k : ChatDelegateKey) → Within h (NameOf f a) (handle_delete_request h f c a k)
  unfolding handle_delete_request
  Within-handle_delete_request k =
      Within-bind h stores _ _ _ (Within-remove_secret h stores _ _ (value k)) (λ done.
        Within-bind h stores _ _ _ Within-get_key_index (λ keys.
          Within-bind h stores _ _ _ (Within-set_key_index (retain (λ i. not (i == k)) keys))
            (λ done. Within-create_app_response (delete_response k (ok tt)))))

  Within-handle_store_signing_key :
      (k : BoardKey) (sk : Bytes) → Within h (NameOf f a) (handle_store_signing_key h f c a k sk)
  unfolding handle_store_signing_key
  Within-handle_store_signing_key k sk =
      Within-bind h stores _ _ _ (Within-set_secret h stores _ _ _ sk (signing k))
        (λ done. Within-create_app_response (store_signing_key_response k (ok tt)))

  Within-handle_sign_request :
      (k : BoardKey) (id : RequestId) (m : Bytes)
      → Within h (NameOf f a) (handle_sign_request h f c a k id m)
  unfolding handle_sign_request
  Within-handle_sign_request k id m =
      Within-bind h stores _ _ _ (Within-get_secret h stores _ _ (signing k))
        (λ stored. Within-create_app_response (sign_response k id (signature_of h f c stored m)))

  Within-handle_request :
      (r : ChatDelegateRequestMsg) → Within h (NameOf f a) (handle_request h f c a r)
  unfolding handle_request handle_get_request handle_list_request handle_get_public_key
  Within-handle_request (store_request k v) = Within-handle_store_request k v
  Within-handle_request (get_request k) =
      Within-bind h stores _ _ _ (Within-get_secret h stores _ _ (value k))
        (λ found. Within-create_app_response (get_response k found))
  Within-handle_request (delete_request k) = Within-handle_delete_request k
  Within-handle_request list_request =
      Within-bind h stores _ _ _ Within-get_key_index
        (λ keys. Within-create_app_response (list_response keys))
  Within-handle_request (store_signing_key k sk) = Within-handle_store_signing_key k sk
  Within-handle_request (get_public_key k) =
      Within-bind h stores _ _ _ (Within-get_secret h stores _ _ (signing k)) (λ stored.
        Within-create_app_response (get_public_key_response k (and_public_key h f c stored)))
  Within-handle_request (sign_message k id m) = Within-handle_sign_request k id m
  Within-handle_request (sign_member k id m) = Within-handle_sign_request k id m
  Within-handle_request (sign_ban k id m) = Within-handle_sign_request k id m
  Within-handle_request (sign_config k id m) = Within-handle_sign_request k id m
  Within-handle_request (sign_member_info k id m) = Within-handle_sign_request k id m
  Within-handle_request (sign_secret_version k id m) = Within-handle_sign_request k id m
  Within-handle_request (sign_encrypted_secret k id m) = Within-handle_sign_request k id m
  Within-handle_request (sign_upgrade k id m) = Within-handle_sign_request k id m
  Within-handle_request (sign_admin k id m) = Within-handle_sign_request k id m

  Within-read : (r : Option ChatDelegateRequestMsg) → Within h (NameOf f a) (handle_read h f c a r)
  Within-read none = Within-answers h stores _ _
  Within-read (some r) = Within-handle_request r

  pub Within-process_from :
      (m : InboundDelegateMsg) → Within h (NameOf f a) (process_from h f c a m)
  unfolding process_from handle_application_message
  Within-process_from (application_message m) = at m.processed
    where
      at :
          (done : Bool)
          → Within h (NameOf f a) (
              if done
              then answers (err already_processed)
              else handle_application_message h f c m a)
      at true = Within-answers h stores _ _
      at false = Within-read (f.read_request m.payload)
  Within-process_from user_response = Within-answers h stores _ _
  Within-process_from get_contract_response = Within-answers h stores _ _
  Within-process_from put_contract_response = Within-answers h stores _ _
  Within-process_from update_contract_response = Within-answers h stores _ _
  Within-process_from subscribe_contract_response = Within-answers h stores _ _
  Within-process_from contract_notification = Within-answers h stores _ _
  Within-process_from delegate_message = Within-answers h stores _ _
