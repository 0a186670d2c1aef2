-- ===== src/Delegate/Faults.antt =====
-- Keys at which values are lost, a write that stops half-way, and signatures
-- (freetalk-delegate/src/handlers.rs and utils.rs).
use free_talk.Shared.{
  true, false, [], ◌∷◌, ◌++◌, some, ok, err, ◌≡◌, ◌≢◌, refl, ap, sym, ◌∙◌, list_eq, nat_eq,
  contains, length, length-append, ==_false, ==_refl, arith,
}
use free_talk.Model.{Bytes, Crypto, SignsCorrectly, SigningKey, Signature, VerifyingKey}
use free_talk.Delegate.Messages.{
  BoardKey, RequestId, ChatDelegateKey, Origin, get_response, store_signing_key_response,
  get_public_key_response, sign_response, index_refused,
}
use free_talk.Delegate.Host.{Host, StoresSecrets, TakesWrites, Formats, EncodesNames, WritesIndex}
use free_talk.Delegate.Names.{
  create_origin_key, create_index_key, create_signing_key_secret_key, key_index_suffix,
}
use free_talk.Delegate.NameLaws.{origin_index_split}
use free_talk.Delegate.Handlers.{
  index_read, public_key_of, signature_of, get_key_index, set_key_index, handle_store_request,
  handle_get_request, handle_store_signing_key, handle_get_public_key, handle_sign_request,
}
use free_talk.Delegate.Shows.{after_store_other}
use free_talk.Delegate.Steps.{
  sent, create_app_response-sent, put, get-put, index_read-put_index, index_now, after_store,
  handle_store_lem,
}

module _ (h : Host) (stores : StoresSecrets h) (takes : TakesWrites h) (f : Formats)
    (n : EncodesNames f) (writes : WritesIndex f) (c : Crypto) (o : Origin) where
  same_name :
      (k : ChatDelegateKey)
      → f.from_utf8_lossy k ≡ key_index_suffix
      → create_origin_key f o k ≡ create_index_key f o
  unfolding create_origin_key create_index_key
  same_name k e = rw e refl

  suffix_now :
      (k : ChatDelegateKey) (v : Bytes) (ctx : h.DelegateCtx)
      → f.from_utf8_lossy k ≡ key_index_suffix
      → index_now h stores takes f writes c o
          (put h stores takes f writes c o ctx (create_origin_key f o k) v)
        ≡ index_read f (some v)
  unfolding index_now
  suffix_now k v ctx e = ap (index_read f) (
      get-put h stores takes f writes c o ctx (create_origin_key f o k) v (create_index_key f o)
      ∙ rw (same_name k e) (rw (==_refl (create_index_key f o)) refl))

  suffix_index :
      (k : ChatDelegateKey) (v : Bytes) (ctx : h.DelegateCtx)
      → f.from_utf8_lossy k ≡ key_index_suffix
      → contains (index_read f (some v)) k ≡ false
      → index_read f (h.get_secret (handle_store_request h f c o k v ctx).0 (create_index_key f o))
        ≡ index_read f (some v) ++ k ∷ []
  unfolding after_store
  suffix_index k v ctx e new = rw (handle_store_lem h stores takes f writes c o k v ctx) (
      rw (suffix_now k v ctx e, new)
        (index_read-put_index h stores takes f writes c o (index_read f (some v) ++ k ∷ [])
          (put h stores takes f writes c o ctx (create_origin_key f o k) v)))

  -- The key that reads as the suffix of an index names the index itself. A value stored under it is
  -- lost, if it does not read as an index that holds the key, and so is the index before: the keys
  -- listed afterwards are those that the value reads as, and the key. The host takes all writes and
  -- keeps them, an index that is written is read back, and base 58 is injective and writes neither
  -- colons nor underscores.
  pub store_suffix_lost :
      (k : ChatDelegateKey) (v : Bytes) (ctx : h.DelegateCtx)
      → f.from_utf8_lossy k ≡ key_index_suffix
      → contains (index_read f (some v)) k ≡ false
      → (h.get_secret (handle_store_request h f c o k v ctx).0 (create_origin_key f o k) ≢ some v)
        × (index_read f
              (h.get_secret (handle_store_request h f c o k v ctx).0 (create_index_key f o))
            ≡ index_read f (some v) ++ k ∷ [])
  store_suffix_lost k v ctx e new =
      let listed = suffix_index k v ctx e new in
      (λ kept. longer (sym listed ∙ (rw (← same_name k e, kept) refl)), listed)
    where
      longer : index_read f (some v) ++ k ∷ [] ≡ index_read f (some v) → ⊥
      longer same =
          absurd (omega (arith, ap length same, length-append (index_read f (some v)) (k ∷ [])))

  lossy_name :
      (k j : ChatDelegateKey)
      → f.from_utf8_lossy k ≡ f.from_utf8_lossy j
      → create_origin_key f o k ≡ create_origin_key f o j
  unfolding create_origin_key
  lossy_name k j e = rw e refl

  lossy_get :
      (k j : ChatDelegateKey) (v : Bytes) (ctx : h.DelegateCtx)
      → f.from_utf8_lossy k ≡ f.from_utf8_lossy j
      → f.from_utf8_lossy j ≢ key_index_suffix
      → h.get_secret (handle_store_request h f c o k v ctx).0 (create_origin_key f o j) ≡ some v
  lossy_get k j v ctx e plain = rw (handle_store_lem h stores takes f writes c o k v ctx) (
      after_store_other h stores takes f n writes c o _ k _ (create_origin_key f o j)
        (λ same. plain (origin_index_split f n o o j (sym same)).1)
      ∙ (get-put h stores takes f writes c o ctx (create_origin_key f o k) v
            (create_origin_key f o j)
          ∙ rw (lossy_name k j e) (rw (==_refl (create_origin_key f o j)) refl)))

  -- Two keys that are not UTF-8 and read alike have one secret: storing under the one changes the
  -- value of the other.
  store_lossy_overwrites :
      (k j : ChatDelegateKey) (v : Bytes) (ctx : h.DelegateCtx)
      → f.from_utf8_lossy k ≡ f.from_utf8_lossy j
      → f.from_utf8_lossy j ≢ key_index_suffix
      → (handle_get_request h f c o j (handle_store_request h f c o k v ctx).0).1
        ≡ sent f (get_response j (some v))
  unfolding handle_get_request
  store_lossy_overwrites k j v ctx e plain = rw (lossy_get k j v ctx e plain) (
      ap (λ r. r.1)
        (create_app_response-sent h stores takes f writes c o (get_response j (some v))
          (handle_store_request h f c o k v ctx).0))

  key_stored :
      (b : BoardKey) (sk : SigningKey) (ctx : h.DelegateCtx)
      → h.get_secret
          (handle_store_signing_key h f c o b sk ctx).0
          (create_signing_key_secret_key f o b)
        ≡ some sk
  unfolding handle_store_signing_key
  key_stored b sk ctx = rw (takes ctx (create_signing_key_secret_key f o b) sk) (
      rw
        (create_app_response-sent h stores takes f writes c o (store_signing_key_response b (ok tt))
          (put h stores takes f writes c o ctx (create_signing_key_secret_key f o b) sk))
        (get-put h stores takes f writes c o ctx (create_signing_key_secret_key f o b) sk
            (create_signing_key_secret_key f o b)
          ∙ rw (==_refl (create_signing_key_secret_key f o b)) refl))

  public_key_stored :
      (b : BoardKey) (sk : SigningKey) (ctx : h.DelegateCtx)
      → length sk ≡ 32
      → (handle_get_public_key h f c o b (handle_store_signing_key h f c o b sk ctx).0).1
        ≡ sent f (get_public_key_response b (some (c.verifying_key sk)))
  unfolding handle_get_public_key public_key_of
  public_key_stored b sk ctx l =
      rw (key_stored b sk ctx, l)
        (ap (λ r. r.1)
          (create_app_response-sent h stores takes f writes c o
            (get_public_key_response b (some (c.verifying_key sk)))
            (handle_store_signing_key h f c o b sk ctx).0))

  signature_stored :
      (b : BoardKey) (sk : SigningKey) (id : RequestId) (m : Bytes) (ctx : h.DelegateCtx)
      → length sk ≡ 32
      → (handle_sign_request h f c o b id m (handle_store_signing_key h f c o b sk ctx).0).1
        ≡ sent f (sign_response b id (ok (c.sign sk m)))
  unfolding handle_sign_request signature_of
  signature_stored b sk id m ctx l =
      rw (key_stored b sk ctx, l)
        (ap (λ r. r.1)
          (create_app_response-sent h stores takes f writes c o
            (sign_response b id (ok (c.sign sk m))) (handle_store_signing_key h f c o b sk ctx).0))

  -- A signing key that an origin stored signs for it: the signature verifies under the public key
  -- that the delegate gives for that board.
  pub sign_verifies :
      SignsCorrectly c
      → (b : BoardKey) (sk : SigningKey) (id : RequestId) (m : Bytes) (ctx : h.DelegateCtx)
      → length sk ≡ 32
      → (pk : VerifyingKey) × (s : Signature) × ((handle_get_public_key h f c o b
            (handle_store_signing_key h f c o b sk ctx).0).1
          ≡ sent f (get_public_key_response b (some pk)))
        × ((handle_sign_request h f c o b id m (handle_store_signing_key h f c o b sk ctx).0).1
            ≡ sent f (sign_response b id (ok s)))
        × (c.verify pk m s ≡ true)
  sign_verifies correct b sk id m ctx l = (
    c.verifying_key sk,
    c.sign sk m,
    public_key_stored b sk ctx l,
    signature_stored b sk id m ctx l,
    correct sk m,
  )

module _ (h : Host) (stores : StoresSecrets h) (f : Formats) (n : EncodesNames f) (c : Crypto)
    (o : Origin) where
  run_half :
      (k : ChatDelegateKey) (v w : Bytes) (ctx : h.DelegateCtx)
      → (h.set_secret ctx (create_origin_key f o k) v).1 ≡ true
      → h.get_secret (h.set_secret ctx (create_origin_key f o k) v).0 (create_index_key f o)
        ≡ h.get_secret ctx (create_index_key f o)
      → contains (index_read f (h.get_secret ctx (create_index_key f o))) k ≡ false
      → f.write_index (index_read f (h.get_secret ctx (create_index_key f o)) ++ k ∷ []) ≡ some w
      → (h.set_secret (h.set_secret ctx (create_origin_key f o k) v).0 (create_index_key f o) w).1
        ≡ false
      → handle_store_request h f c o k v ctx ≡ (
        (h.set_secret (h.set_secret ctx (create_origin_key f o k) v).0 (create_index_key f o) w).0,
        err index_refused,
      )
  unfolding handle_store_request get_key_index set_key_index
  run_half k v w ctx taken kept new wrote refused =
      rw taken (rw kept (rw new (rw wrote (rw refused refl))))

  -- Where the host takes the value of a key and refuses the index, the call fails, but the value
  -- stays, in no list of keys: the index is what it was. The key is not in the index before, does
  -- not read as the suffix of an index, and the index with it can be written; the host keeps what it
  -- takes and changes nothing where it refuses, and base 58 is injective and writes neither colons
  -- nor underscores.
  pub store_half :
      (k : ChatDelegateKey) (v w : Bytes) (ctx : h.DelegateCtx)
      → f.from_utf8_lossy k ≢ key_index_suffix
      → (h.set_secret ctx (create_origin_key f o k) v).1 ≡ true
      → contains (index_read f (h.get_secret ctx (create_index_key f o))) k ≡ false
      → f.write_index (index_read f (h.get_secret ctx (create_index_key f o)) ++ k ∷ []) ≡ some w
      → (h.set_secret (h.set_secret ctx (create_origin_key f o k) v).0 (create_index_key f o) w).1
        ≡ false
      → ((handle_store_request h f c o k v ctx).1 ≡ err index_refused)
        × (h.get_secret (handle_store_request h f c o k v ctx).0 (create_origin_key f o k) ≡ some v)
        × (h.get_secret (handle_store_request h f c o k v ctx).0 (create_index_key f o)
            ≡ h.get_secret ctx (create_index_key f o))
  store_half k v w ctx plain taken new wrote refused =
      let named = λ (e : create_origin_key f o k ≡ create_index_key f o).
        plain (origin_index_split f n o o k e).1 in
      let ctx1 = (h.set_secret ctx (create_origin_key f o k) v).0 in
      let index_kept : h.get_secret ctx1 (create_index_key f o)
          ≡ h.get_secret ctx (create_index_key f o) =
        stores.get-set_taken ctx _ v _ taken ∙ rw (==_false _ _ named) refl in
      rw (run_half k v w ctx taken index_kept new wrote refused) (
        refl,
        stores.get-set_refused ctx1 _ w _ refused
            ∙ (stores.get-set_taken ctx _ v _ taken ∙ rw (==_refl (create_origin_key f o k)) refl),
        stores.get-set_refused ctx1 _ w _ refused ∙ index_kept,
      )
