-- ===== src/Delegate/Steps.antt =====
-- What each handler of freetalk-delegate/src/handlers.rs that writes does to the store, where the host
-- takes every write.
use free_talk.Shared.{
  true, not, List, [], ◌∷◌, ◌++◌, none, some, Result, ok, err, ◌≡◌, ◌≢◌, refl, ap, ◌∙◌, ◌==◌,
  list_eq, nat_eq, contains, retain, length, Bool-cases, Option-cases, ==_false, ==_refl,
  if◌then◌else◌, inl, inr,
}
use free_talk.Model.{Bytes, Crypto}
use free_talk.Delegate.Messages.{
  ChatDelegateKey, Origin, KeyIndex, ChatDelegateResponseMsg, store_response, delete_response,
  ApplicationMessage, DelegateError, unwritten_response,
}
use free_talk.Delegate.Host.{
  Host, StoresSecrets, TakesWrites, Formats, WritesIndex, and_then, written,
}
use free_talk.Delegate.Names.{create_origin_key, create_index_key}
use free_talk.Delegate.Handlers.{
  create_app_response, index_read, get_key_index, set_key_index, handle_store_request,
  handle_delete_request,
}

-- The message that carries a response.
abbrev pub sent : Formats → ChatDelegateResponseMsg → Result DelegateError (List ApplicationMessage)
sent f r = elim (f.write_response r) [
  | none ↦ err unwritten_response
  | some b ↦ ok (record { payload = b; processed = true } ∷ [])
]

module _ (h : Host) (stores : StoresSecrets h) (takes : TakesWrites h) (f : Formats)
    (writes : WritesIndex f) (c : Crypto) (o : Origin) where
  pub create_app_response-sent :
      (r : ChatDelegateResponseMsg) (ctx : h.DelegateCtx)
      → create_app_response h f c r ctx ≡ (ctx, sent f r)
  unfolding create_app_response
  create_app_response-sent r ctx = elim (Option-cases (f.write_response r)) [
    | inl e ↦ rw (e, sent) refl
    | inr e ↦ rw (e.1, sent) refl
  ]

  -- The store after a write.
  abbrev pub put : h.DelegateCtx → Bytes → Bytes → h.DelegateCtx
  put ctx k v = (h.set_secret ctx k v).0

  pub get-put :
      (ctx : h.DelegateCtx) (k v j : Bytes)
      → h.get_secret (put ctx k v) j ≡ (if k == j then some v else h.get_secret ctx j)
  get-put ctx k v j = stores.get-set_taken ctx k v j (takes ctx k v)

  pub get-put_other :
      (ctx : h.DelegateCtx) (k v j : Bytes)
      → k ≢ j
      → h.get_secret (put ctx k v) j ≡ h.get_secret ctx j
  get-put_other ctx k v j other = get-put ctx k v j ∙ rw (==_false k j other) refl

  -- The store after the index is written.
  abbrev pub put_index : h.DelegateCtx → KeyIndex → h.DelegateCtx
  put_index ctx keys = put ctx (create_index_key f o) (writes keys).0

  pub set_key_index_lem :
      (keys : KeyIndex) (ctx : h.DelegateCtx)
      → set_key_index h f c (create_index_key f o) keys ctx ≡ (put_index ctx keys, ok tt)
  unfolding set_key_index
  set_key_index_lem keys ctx =
      rw ((writes keys).1, written) (rw (takes ctx (create_index_key f o) (writes keys).0) refl)

  pub index_read-put_index :
      (keys : KeyIndex) (ctx : h.DelegateCtx)
      → index_read f (h.get_secret (put_index ctx keys) (create_index_key f o)) ≡ keys
  unfolding index_read
  index_read-put_index keys ctx =
      rw (get-put ctx (create_index_key f o) (writes keys).0 (create_index_key f o))
        (rw (==_refl (create_index_key f o)) (rw (writes keys).2 refl))

  unfoldable pub index_now : h.DelegateCtx → KeyIndex
  index_now ctx = index_read f (h.get_secret ctx (create_index_key f o))

  unfoldable pub after_store : h.DelegateCtx → ChatDelegateKey → KeyIndex → h.DelegateCtx
  after_store ctx k keys = if contains keys k then ctx else put_index ctx (keys ++ k ∷ [])

  pub handle_store_lem :
      (k : ChatDelegateKey) (v : Bytes) (ctx : h.DelegateCtx)
      → handle_store_request h f c o k v ctx ≡ (
        after_store
            (put ctx (create_origin_key f o k) v)
            k
            (index_now (put ctx (create_origin_key f o k) v)),
        sent f (store_response k (length v) (ok tt)),
      )
  unfolding handle_store_request get_key_index index_now after_store
  handle_store_lem k v ctx =
      let ctx1 = put ctx (create_origin_key f o k) v in
      let keys = index_read f (h.get_secret ctx1 (create_index_key f o)) in
      rw (takes ctx (create_origin_key f o k) v) (elim (Bool-cases (contains keys k)) [
        | inl old ↦ rw old (create_app_response-sent _ ctx1)
        | inr new ↦ rw new (
            ap
              (λ r.
                and_then r
                  (λ done. create_app_response h f c (store_response k (length v) (ok tt))))
              (set_key_index_lem (keys ++ k ∷ []) ctx1)
            ∙ create_app_response-sent _ _)
      ])

  pub handle_delete_lem :
      (k : ChatDelegateKey) (ctx : h.DelegateCtx)
      → handle_delete_request h f c o k ctx ≡ (
        put_index (h.remove_secret ctx (create_origin_key f o k)) (
            retain (λ i. not (i == k)) (index_now (h.remove_secret ctx (create_origin_key f o k)))),
        sent f (delete_response k (ok tt)),
      )
  unfolding handle_delete_request get_key_index index_now
  handle_delete_lem k ctx =
      let ctx1 = h.remove_secret ctx (create_origin_key f o k) in
      let keys = index_read f (h.get_secret ctx1 (create_index_key f o)) in
      ap (λ r. and_then r (λ done. create_app_response h f c (delete_response k (ok tt))))
        (set_key_index_lem (retain (λ i. not (i == k)) keys) ctx1)
      ∙ create_app_response-sent _ _
