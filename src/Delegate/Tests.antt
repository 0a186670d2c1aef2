-- ===== src/Delegate/Tests.antt =====
-- Examples for freetalk-delegate/src/handlers.rs.
use free_talk.Shared.{
  Bool, true, not, List, [], ◌∷◌, ◌++◌, map, some, ok, err, ◌≡◌, ◌≢◌, refl, ◌==◌, list_eq, nat_eq,
}
use free_talk.Shared.HashMap
use free_talk.Model.{ascii, Bytes, VerifyingKey, Signature}
use free_talk.Examples.{toy, toy-SignsCorrectly}
use free_talk.Delegate.Messages.{
  Origin, ChatDelegateRequestMsg, store_request, get_request, list_request, store_signing_key,
  sign_message, get_response, get_public_key_response, sign_response, store_response,
  store_signing_key_response, list_response, index_refused,
}
use free_talk.Delegate.Names.{create_origin_key, create_index_key, key_index_suffix}
use free_talk.Delegate.Handlers.{
  handle_store_request, handle_get_public_key, handle_store_signing_key, handle_sign_request,
  index_read,
}
use free_talk.Delegate.Vault.{empty, answers_of, requests_of}
use free_talk.Delegate.Isolation.{answers_to, calls_of, answers_to-calls_of, Call}
use free_talk.Delegate.Steps.{sent}
use free_talk.Delegate.Shows.{Shows}
use free_talk.Delegate.Refines.{answers_to-Drawer, call}
use free_talk.Delegate.Faults.{store_suffix_lost, sign_verifies, store_half}
use free_talk.Delegate.Toy.{
  memory, always, memory-StoresSecrets, memory-TakesWrites, small, small-EncodesNames,
  small-WritesIndex, payload, payload_read, write_texts,
}

abbrev alice : Origin
alice = 1 ∷ []

abbrev bob : Origin
bob = 2 ∷ []

abbrev key : Bytes
key = ascii "rooms"

abbrev signing_key : Bytes
signing_key =
    1 ∷ 2 ∷ 3 ∷ 4 ∷ 5 ∷ 6 ∷ 7 ∷ 8 ∷ 1 ∷ 2 ∷ 3 ∷ 4 ∷ 5 ∷ 6 ∷ 7 ∷ 8 ∷ 1 ∷ 2 ∷ 3 ∷ 4 ∷ 5 ∷ 6 ∷ 7 ∷ 8
    ∷ 1 ∷ 2 ∷ 3 ∷ 4 ∷ 5 ∷ 6 ∷ 7 ∷ 8 ∷ []

abbrev requests : List (Origin × ChatDelegateRequestMsg)
requests =
    (alice, store_request key (4 ∷ []))
    ∷ (bob, store_request key (5 ∷ []))
    ∷ (bob, list_request)
    ∷ (bob, store_signing_key (7 ∷ []) (8 ∷ []))
    ∷ (alice, get_request key)
    ∷ (alice, store_signing_key (9 ∷ []) signing_key)
    ∷ (alice, sign_message (9 ∷ []) 1 (6 ∷ []))
    ∷ (alice, list_request)
    ∷ []

abbrev calls : List Call
calls = map (call payload) requests

Shows-empty : Shows (memory always) small alice [] empty
unfolding index_read
Shows-empty = record {
  values = λ k p. refl;
  index = refl;
  signing = λ b. refl;
  lengths = λ b sk e. cc;
}

answers_to-calls_of_example :
    answers_to (memory always) small toy alice [] calls
    ≡ answers_to (memory always) small toy alice [] (calls_of alice calls)
answers_to-calls_of_example =
    answers_to-calls_of (memory always) (memory-StoresSecrets always) memory-TakesWrites small
      small-EncodesNames toy alice [] calls

answers_to-Drawer_example :
    answers_to (memory always) small toy alice [] calls
    ≡ map (sent small) (answers_of toy empty (requests_of alice requests))
answers_to-Drawer_example =
    answers_to-Drawer (memory always) (memory-StoresSecrets always) memory-TakesWrites small
      small-EncodesNames small-WritesIndex toy alice payload payload_read [] empty requests
      Shows-empty ((refl, λ e. absurd (cc)), ((refl, λ e. absurd (cc)), (refl, (tt, (tt, tt)))))

answered :
    answers_of toy empty (requests_of alice requests)
    ≡ store_response key 1 (ok tt)
      ∷ get_response key (some (4 ∷ []))
      ∷ store_signing_key_response (9 ∷ []) (ok tt)
      ∷ sign_response (9 ∷ []) 1 (ok (signing_key ++ 6 ∷ []))
      ∷ list_response (key ∷ [])
      ∷ []
unfolding answers_of
answered = refl

store_suffix_lost_example :
    (HashMap.get
        (create_origin_key small alice key_index_suffix)
        (handle_store_request (memory always) small toy alice key_index_suffix (5 ∷ []) []).0
      ≢ some (5 ∷ []))
    × (index_read small (
          HashMap.get
            (create_index_key small alice)
            (handle_store_request (memory always) small toy alice key_index_suffix (5 ∷ []) []).0)
        ≡ index_read small (some (5 ∷ [])) ++ key_index_suffix ∷ [])
unfolding index_read
store_suffix_lost_example =
    store_suffix_lost (memory always) (memory-StoresSecrets always) memory-TakesWrites small
      small-EncodesNames small-WritesIndex toy alice key_index_suffix (5 ∷ []) [] refl refl

sign_verifies_example :
    (pk : VerifyingKey) × (s : Signature) × ((handle_get_public_key
        (memory always)
        small
        toy
        alice
        (9 ∷ [])
        (handle_store_signing_key (memory always) small toy alice (9 ∷ []) signing_key []).0).1
      ≡ sent small (get_public_key_response (9 ∷ []) (some pk)))
    × ((handle_sign_request
          (memory always)
          small
          toy
          alice
          (9 ∷ [])
          1
          (6 ∷ [])
          (handle_store_signing_key (memory always) small toy alice (9 ∷ []) signing_key []).0).1
        ≡ sent small (sign_response (9 ∷ []) 1 (ok s)))
    × (toy.verify pk (6 ∷ []) s ≡ true)
sign_verifies_example =
    sign_verifies (memory always) (memory-StoresSecrets always) memory-TakesWrites small
      small-EncodesNames small-WritesIndex toy alice toy-SignsCorrectly (9 ∷ []) signing_key 1
      (6 ∷ []) [] refl

-- A host that takes everything but the index of an origin.
abbrev but_index : Bytes → Bool
but_index k = not (k == (101 ∷ ascii ":::key_index"))

store_half_example :
    ((handle_store_request (memory but_index) small toy alice key (5 ∷ []) []).1
      ≡ err index_refused)
    × (HashMap.get
          (create_origin_key small alice key)
          (handle_store_request (memory but_index) small toy alice key (5 ∷ []) []).0
        ≡ some (5 ∷ []))
    × (HashMap.get
          (create_index_key small alice)
          (handle_store_request (memory but_index) small toy alice key (5 ∷ []) []).0
        ≡ HashMap.get (create_index_key small alice) [])
unfolding index_read create_index_key create_origin_key
store_half_example =
    store_half (memory but_index) (memory-StoresSecrets but_index) small small-EncodesNames toy
      alice key (5 ∷ []) (write_texts (key ∷ [])) [] (λ e. absurd (cc)) refl refl refl refl
