-- ===== src/Delegate/Toy.antt =====
-- A host in memory and small formats, at which the theorems of the delegate are applied.
use free_talk.Shared.{
  ℕ, zero, suc, ◌+◌, Bool, true, false, List, [], ◌∷◌, ◌++◌, map, Option, none, some, ◌≡◌, refl, ap,
  ◌∙◌, ltb, ◌==◌, list_eq, nat_eq, if◌then◌else◌, arith,
}
use free_talk.Shared.HashMap
use free_talk.Shared.HashMap.{HashMap}
use free_talk.Model.{Bytes}
use free_talk.Delegate.Messages.{
  ChatDelegateRequestMsg, store_request, get_request, delete_request, list_request,
  store_signing_key, get_public_key, sign_message, sign_member, sign_ban, sign_config,
  sign_member_info, sign_secret_version, sign_encrypted_secret, sign_upgrade, sign_admin,
  get_response, list_response,
}
use free_talk.Delegate.Host.{
  Host, StoresSecrets, TakesWrites, Formats, EncodesNames, WritesIndex, IsBase58,
}

-- A store in memory that takes the writes that a test allows.
abbrev pub memory : (Bytes → Bool) → Host
memory allowed = record {
  DelegateCtx = HashMap Bytes Bytes;
  get_secret = λ s k. HashMap.get k s;
  set_secret = λ s k v. if allowed k then (HashMap.insert k v s, true) else (s, false);
  remove_secret = λ s k. HashMap.remove k s;
}

module _ (allowed : Bytes → Bool) where
  taken :
      (s : HashMap Bytes Bytes) (k v j : Bytes)
      → ((memory allowed).set_secret s k v).1 ≡ true
      → HashMap.get j ((memory allowed).set_secret s k v).0
        ≡ (if k == j then some v else HashMap.get j s)
  taken s k v j h = ground (arith, HashMap.get-insert k j v s)

  refused :
      (s : HashMap Bytes Bytes) (k v j : Bytes)
      → ((memory allowed).set_secret s k v).1 ≡ false
      → HashMap.get j ((memory allowed).set_secret s k v).0 ≡ HashMap.get j s
  refused s k v j h = ground arith

  pub memory-StoresSecrets : StoresSecrets (memory allowed)
  memory-StoresSecrets = record {
    get-set_taken = taken;
    get-set_refused = refused;
    get-remove = λ s k j. HashMap.get-remove k j s;
  }

abbrev pub always : Bytes → Bool
always k = true

pub memory-TakesWrites : TakesWrites (memory always)
memory-TakesWrites s k v = refl

-- A list of texts: each is written with its bytes one higher and ends with 0.
abbrev pub write_texts : List Bytes → Bytes
write_texts [] = []
write_texts (k ∷ ks) = map suc k ++ (0 ∷ write_texts ks)

abbrev push : ℕ → List Bytes → List Bytes
push b [] = (b ∷ []) ∷ []
push b (k ∷ ks) = (b ∷ k) ∷ ks

abbrev pub read_texts : Bytes → List Bytes
read_texts [] = []
read_texts (zero ∷ bs) = [] ∷ read_texts bs
read_texts (suc b ∷ bs) = push b (read_texts bs)

read-write_texts : (ks : List Bytes) → read_texts (write_texts ks) ≡ ks
read-write_texts [] = refl
read-write_texts (k ∷ ks) = one k ∙ ap (◌∷◌ k) (read-write_texts ks)
  where
    one :
        (k : Bytes)
        → read_texts (map suc k ++ (0 ∷ write_texts ks)) ≡ k ∷ read_texts (write_texts ks)
    one [] = refl
    one (b ∷ bs) = ap (push b) (one bs)

abbrev pub fields : ChatDelegateRequestMsg → ℕ × List Bytes
fields (store_request k v) = (0, k ∷ v ∷ [])
fields (get_request k) = (0, k ∷ [])
fields (delete_request k) = (1, k ∷ [])
fields list_request = (0, [])
fields (store_signing_key b sk) = (1, b ∷ sk ∷ [])
fields (get_public_key b) = (2, b ∷ [])
fields (sign_message b id m) = (0, b ∷ (id ∷ []) ∷ m ∷ [])
fields (sign_member b id m) = (1, b ∷ (id ∷ []) ∷ m ∷ [])
fields (sign_ban b id m) = (2, b ∷ (id ∷ []) ∷ m ∷ [])
fields (sign_config b id m) = (3, b ∷ (id ∷ []) ∷ m ∷ [])
fields (sign_member_info b id m) = (4, b ∷ (id ∷ []) ∷ m ∷ [])
fields (sign_secret_version b id m) = (5, b ∷ (id ∷ []) ∷ m ∷ [])
fields (sign_encrypted_secret b id m) = (6, b ∷ (id ∷ []) ∷ m ∷ [])
fields (sign_upgrade b id m) = (7, b ∷ (id ∷ []) ∷ m ∷ [])
fields (sign_admin b id m) = (8, b ∷ (id ∷ []) ∷ m ∷ [])

abbrev from_one : ℕ → Bytes → ChatDelegateRequestMsg
from_one tag k =
    if tag == 0 then get_request k else if tag == 1 then delete_request k else get_public_key k

abbrev from_three : ℕ → Bytes → ℕ → Bytes → ChatDelegateRequestMsg
from_three tag b id m =
    if tag == 0
    then sign_message b id m
    else if tag == 1
    then sign_member b id m
    else if tag == 2
    then sign_ban b id m
    else if tag == 3
    then sign_config b id m
    else if tag == 4
    then sign_member_info b id m
    else if tag == 5
    then sign_secret_version b id m
    else if tag == 6
    then sign_encrypted_secret b id m
    else if tag == 7
    then sign_upgrade b id m
    else sign_admin b id m

abbrev from_fields : ℕ → List Bytes → Option ChatDelegateRequestMsg
from_fields tag [] = some list_request
from_fields tag (k ∷ []) = some (from_one tag k)
from_fields tag (k ∷ v ∷ []) = some (if tag == 0 then store_request k v else store_signing_key k v)
from_fields tag (b ∷ (id ∷ []) ∷ m ∷ []) = some (from_three tag b id m)
from_fields tag _ = none

abbrev pub payload : ChatDelegateRequestMsg → Bytes
payload r = (fields r).0 ∷ write_texts (fields r).1

abbrev pub read_payload : Bytes → Option ChatDelegateRequestMsg
read_payload [] = none
read_payload (tag ∷ bs) = from_fields tag (read_texts bs)

abbrev scalar : ℕ → ℕ
scalar b = if ltb b 128 then b else 239

abbrev pub small : Formats
small = record {
  bs58_encode = map (λ b. b + 100);
  from_utf8_lossy = map scalar;
  write_index = λ keys. some (write_texts keys);
  read_index = λ b. some (read_texts b);
  write_response = λ r. elim r [
    | get_response k v ↦ elim v [ none ↦ some (1 ∷ k) | some w ↦ some (2 ∷ k ++ w) ]
    | list_response keys ↦ some (3 ∷ write_texts keys)
    | _ ↦ some []
  ];
  read_request = read_payload;
}

pub payload_read : (r : ChatDelegateRequestMsg) → small.read_request (payload r) ≡ some r
payload_read r = rw (read-write_texts (fields r).1) (tagged r)
  where
    tagged : (r : ChatDelegateRequestMsg) → from_fields (fields r).0 (fields r).1 ≡ some r
    tagged (store_request k v) = refl
    tagged (get_request k) = refl
    tagged (delete_request k) = refl
    tagged list_request = refl
    tagged (store_signing_key b sk) = refl
    tagged (get_public_key b) = refl
    tagged (sign_message b id m) = refl
    tagged (sign_member b id m) = refl
    tagged (sign_ban b id m) = refl
    tagged (sign_config b id m) = refl
    tagged (sign_member_info b id m) = refl
    tagged (sign_secret_version b id m) = refl
    tagged (sign_encrypted_secret b id m) = refl
    tagged (sign_upgrade b id m) = refl
    tagged (sign_admin b id m) = refl

pub small-WritesIndex : WritesIndex small
small-WritesIndex keys = (write_texts keys, refl, ap some (read-write_texts keys))

shifted_injective : (a b : Bytes) → map (λ (x : ℕ). x + 100) a ≡ map (λ (x : ℕ). x + 100) b → a ≡ b
shifted_injective [] [] h = refl
shifted_injective [] (y ∷ b) h = cc
shifted_injective (x ∷ a) [] h = cc
shifted_injective (x ∷ a) (y ∷ b) h =
    let heads : x + 100 ≡ y + 100 = cc in
    let tails : map (λ (x : ℕ). x + 100) a ≡ map (λ (x : ℕ). x + 100) b = cc in
    let same : x ≡ y = omega arith in cc (same, shifted_injective a b tails)

shifted-IsBase58 : (a : Bytes) → IsBase58 (map (λ (x : ℕ). x + 100) a)
shifted-IsBase58 [] = tt
shifted-IsBase58 (x ∷ a) =
    ((λ e. absurd (omega arith), λ e. absurd (omega arith)), shifted-IsBase58 a)

pub small-EncodesNames : EncodesNames small
small-EncodesNames = record { bs58_injective = shifted_injective; bs58-IsBase58 = shifted-IsBase58 }
