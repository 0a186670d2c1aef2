-- ===== src/Delegate/Refines.antt =====
-- The delegate refines the drawers of its origins (freetalk-delegate/src/handlers.rs and lib.rs).
use free_talk.Shared.{
  false, List, [], ◌∷◌, map, none, some, Result, ok, err, ◌≡◌, refl, ap, ◌∙◌, ◌==◌, list_eq, nat_eq,
  length, All, Bool-cases, Option-cases, ==_refl, inl, inr,
}
use free_talk.Shared.HashMap
use free_talk.Shared.HashMap.{HashMap}
use mathlib.Core.Option
use free_talk.Model.{Bytes, Crypto}
use free_talk.Delegate.Messages.{
  BoardKey, RequestId, Origin, ChatDelegateRequestMsg, store_request, get_request, delete_request,
  list_request, store_signing_key, get_public_key, sign_message, sign_member, sign_ban, sign_config,
  sign_member_info, sign_secret_version, sign_encrypted_secret, sign_upgrade, sign_admin,
  ChatDelegateResponseMsg, get_response, list_response, store_signing_key_response, key_not_found,
  ApplicationMessage, application_message, DelegateError,
}
use free_talk.Delegate.Host.{Host, StoresSecrets, TakesWrites, Formats, EncodesNames, WritesIndex}
use free_talk.Delegate.Names.{create_signing_key_secret_key}
use free_talk.Delegate.Handlers.{
  create_app_response, public_key_of, and_public_key, signature_of, get_key_index,
  handle_get_request, handle_list_request, handle_store_signing_key, handle_get_public_key,
  handle_sign_request, handle_request, handle_application_message, process,
}
use free_talk.Delegate.Vault.{Drawer, answer, answers_of, sign_answer, IsPlainRequest, requests_of}
use free_talk.Delegate.Steps.{sent, create_app_response-sent, handle_store_lem, handle_delete_lem}
use free_talk.Delegate.Isolation.{Call, calls_of, answers_to, answers_to-calls_of}
use free_talk.Delegate.Shows.{Shows, stored-Shows, removed-Shows, signed-Shows}

-- The call by which an origin makes a request, which its client writes.
abbrev pub call : (ChatDelegateRequestMsg → Bytes) → Origin × ChatDelegateRequestMsg → Call
call payload (a, r) = (a, application_message (record { payload = payload r; processed = false }))

module _ (h : Host) (stores : StoresSecrets h) (takes : TakesWrites h) (f : Formats)
    (n : EncodesNames f) (writes : WritesIndex f) (c : Crypto) (o : Origin) where
  -- A handler answers as the drawer does, and leaves the store that shows the drawer after it.
  abbrev Follows :
      h.DelegateCtx × Result DelegateError (List ApplicationMessage)
      → Drawer × ChatDelegateResponseMsg
      → Type 0
  Follows run spec = (run.1 ≡ sent f spec.1) × Shows h f o run.0 spec.0

  answered :
      (r : ChatDelegateResponseMsg) (ctx : h.DelegateCtx) (d : Drawer)
      → Shows h f o ctx d
      → Follows (create_app_response h f c r ctx) (d, r)
  answered r ctx d shows =
      rw (create_app_response-sent h stores takes f writes c o r ctx) (refl, shows)

  signature_lem :
      (d : Drawer) (b m : Bytes)
      → ((sk : Bytes) → HashMap.get b d.signing_keys ≡ some sk → length sk ≡ 32)
      → signature_of h f c (HashMap.get b d.signing_keys) m ≡ elim (HashMap.get b d.signing_keys) [
        | none ↦ err key_not_found
        | some sk ↦ ok (c.sign sk m)
      ]
  unfolding signature_of
  signature_lem d b m lengths = elim (Option-cases (HashMap.get b d.signing_keys)) [
    | inl e ↦ rw e refl
    | inr e ↦ rw e.1 (rw (lengths e.0 e.1) refl)
  ]

  public_key_lem :
      (d : Drawer) (b : Bytes)
      → ((sk : Bytes) → HashMap.get b d.signing_keys ≡ some sk → length sk ≡ 32)
      → and_public_key h f c (HashMap.get b d.signing_keys)
        ≡ Option.map c.verifying_key (HashMap.get b d.signing_keys)
  unfolding public_key_of
  public_key_lem d b lengths = elim (Option-cases (HashMap.get b d.signing_keys)) [
    | inl e ↦ rw e refl
    | inr e ↦ rw e.1 (rw (lengths e.0 e.1) refl)
  ]

  sign_refines :
      (b : BoardKey) (id : RequestId) (m : Bytes) (ctx : h.DelegateCtx) (d : Drawer)
      → Shows h f o ctx d
      → Follows (handle_sign_request h f c o b id m ctx) (d, sign_answer c d b id m)
  unfolding handle_sign_request
  sign_refines b id m ctx d shows =
      rw (shows.signing b, signature_lem d b m (shows.lengths b))
        (answered (sign_answer c d b id m) ctx d shows)

  handle_refines :
      (r : ChatDelegateRequestMsg) (ctx : h.DelegateCtx) (d : Drawer)
      → Shows h f o ctx d
      → IsPlainRequest f r
      → Follows (handle_request h f c o r ctx) (answer c d r)
  unfolding handle_request handle_get_request handle_list_request answer get_key_index
      handle_store_signing_key handle_get_public_key
  handle_refines (store_request k v) ctx d shows p =
      rw (handle_store_lem h stores takes f writes c o k v ctx)
        (refl, stored-Shows h stores takes f n writes c o ctx d shows k v _ p refl)
  handle_refines (get_request k) ctx d shows p =
      rw (shows.values k p) (answered (get_response k (HashMap.get k d.values)) ctx d shows)
  handle_refines (delete_request k) ctx d shows p =
      rw (handle_delete_lem h stores takes f writes c o k ctx)
        (refl, removed-Shows h stores takes f n writes c o ctx d shows k _ p refl)
  handle_refines list_request ctx d shows p =
      rw shows.index (answered (list_response (HashMap.keys d.values)) ctx d shows)
  handle_refines (store_signing_key b sk) ctx d shows l =
      rw (takes ctx (create_signing_key_secret_key f o b) sk) (
        answered (store_signing_key_response b (ok tt)) _ _
          (signed-Shows h stores takes f n writes c o ctx d shows b sk l))
  handle_refines (get_public_key b) ctx d shows p =
      rw (shows.signing b, public_key_lem d b (shows.lengths b)) (answered _ ctx d shows)
  handle_refines (sign_message b id m) ctx d shows p = sign_refines b id m ctx d shows
  handle_refines (sign_member b id m) ctx d shows p = sign_refines b id m ctx d shows
  handle_refines (sign_ban b id m) ctx d shows p = sign_refines b id m ctx d shows
  handle_refines (sign_config b id m) ctx d shows p = sign_refines b id m ctx d shows
  handle_refines (sign_member_info b id m) ctx d shows p = sign_refines b id m ctx d shows
  handle_refines (sign_secret_version b id m) ctx d shows p = sign_refines b id m ctx d shows
  handle_refines (sign_encrypted_secret b id m) ctx d shows p = sign_refines b id m ctx d shows
  handle_refines (sign_upgrade b id m) ctx d shows p = sign_refines b id m ctx d shows
  handle_refines (sign_admin b id m) ctx d shows p = sign_refines b id m ctx d shows

  module _ (payload : ChatDelegateRequestMsg → Bytes)
      (reads : (r : ChatDelegateRequestMsg) → f.read_request (payload r) ≡ some r) where
    process-call :
        (r : ChatDelegateRequestMsg) (ctx : h.DelegateCtx)
        → process h f c (some o) (call payload (o, r)).1 ctx ≡ handle_request h f c o r ctx
    unfolding process handle_application_message
    process-call r ctx = rw (reads r) refl

    own_refines :
        (rs : List ChatDelegateRequestMsg) (ctx : h.DelegateCtx) (d : Drawer)
        → Shows h f o ctx d
        → All (IsPlainRequest f) rs
        → answers_to h f c o ctx (map (λ r. call payload (o, r)) rs)
          ≡ map (sent f) (answers_of c d rs)
    unfolding answers_to answers_of
    own_refines [] ctx d shows p = refl
    own_refines (r ∷ rs) ctx d shows p =
        let now = handle_refines r ctx d shows p.0 in
        let later = own_refines rs (handle_request h f c o r ctx).0 (answer c d r).0 now.1 p.1 in
        rw (==_refl o) (rw (process-call r ctx) (cc (now.0, later)))

    calls_of-map :
        (requests : List (Origin × ChatDelegateRequestMsg))
        → calls_of o (map (call payload) requests)
          ≡ map (λ r. call payload (o, r)) (requests_of o requests)
    calls_of-map [] = refl
    calls_of-map ((a, r) ∷ requests) = elim (Bool-cases (a == o)) [
      | inl own ↦
          let e : a ≡ o = (list_eq.is_eq_iff a o).0 own in
          rw (own, e) (ap (◌∷◌ (call payload (o, r))) (calls_of-map requests))
      | inr other ↦ rw other (calls_of-map requests)
    ]

    -- In every sequence of requests, of all origins, the answers to one origin are those of a
    -- drawer of its own, to its own requests in their order, if the store shows that drawer at first,
    -- the host takes every write, the keys of this origin are UTF-8 and none is the suffix of an
    -- index, and the signing keys that it stores have 32 bytes.
    pub answers_to-Drawer :
        (ctx : h.DelegateCtx) (d : Drawer) (requests : List (Origin × ChatDelegateRequestMsg))
        → Shows h f o ctx d
        → All (IsPlainRequest f) (requests_of o requests)
        → answers_to h f c o ctx (map (call payload) requests)
          ≡ map (sent f) (answers_of c d (requests_of o requests))
    answers_to-Drawer ctx d requests shows plain =
        answers_to-calls_of h stores takes f n c o ctx (map (call payload) requests)
        ∙ (ap (answers_to h f c o ctx) (calls_of-map requests)
            ∙ own_refines (requests_of o requests) ctx d shows plain)
