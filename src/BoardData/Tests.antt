-- ===== src/BoardData/Tests.antt =====
-- Examples for ui/src/board_data.rs: a private board, with a ban of the member 3.
use free_talk.Shared.{
  true, false, not, ◌&&◌, ◌||◌, [], ◌∷◌, none, some, ok, inr, All, contains, map, nat_eq, pair_eq,
  list_eq, ◌≡◌, refl, arith, is_empty, Distinct,
}
use free_talk.Model.{
  Bytes, MemberId, PrivacyMode, BoardCipherSpec, Configuration, BoardSecretsV1, SecretsDelta,
  ChatBoardStateV1, VerifyingKey, member_id, member_id_from,
}
use free_talk.Examples.{toy, toy-SignsCorrectly, owner_key, settings, three_members, ban, board}
use free_talk.Ecies.{Random}
use free_talk.Ecies.Toy.{plain, plain-AreCiphers}
use free_talk.Secret.{
  record_version, pair_of, may_receive, apply_delta, check_current_version, new_version_record,
  new_encrypted_secret, verify_version_record, verify_encrypted_secret,
}
use free_talk.Secret.Keeps.{IsSound}
use free_talk.Member.Downstream.{banned_user}
use free_talk.BoardData.{
  BoardData, is_private, get_secret, parameters, can_participate, capture_self_membership_data,
}
use free_talk.BoardData.Secrets.{current_members, rotate_secret, generate_missing_member_secrets}
use free_talk.BoardData.Rotate.{rotate_secret_lem}
use free_talk.BoardData.Missing.{generate_missing_member_secrets_lem}
use free_talk.BoardData.Read.{IsReadBy, rotate_secret-IsReadBy}
use free_talk.BoardData.Access.{capture-can_participate}

abbrev private_settings : Configuration
private_settings = record (settings 1 2 2) { privacy_mode = PrivacyMode.private }

abbrev old : Bytes
old =
    1 ∷ 2 ∷ 3 ∷ 4 ∷ 5 ∷ 6 ∷ 7 ∷ 8 ∷ 1 ∷ 2 ∷ 3 ∷ 4 ∷ 5 ∷ 6 ∷ 7 ∷ 8 ∷ 1 ∷ 2 ∷ 3 ∷ 4 ∷ 5 ∷ 6 ∷ 7 ∷ 8
    ∷ 1 ∷ 2 ∷ 3 ∷ 4 ∷ 5 ∷ 6 ∷ 7 ∷ 8 ∷ []

-- The secret of the first version is with the member 2 alone.
abbrev first : BoardSecretsV1
first = record {
  current_version = 1;
  versions =
      new_version_record toy
        (record { version = 1; cipher_spec = BoardCipherSpec.aes256_gcm; created_at = 0 }) owner_key
      ∷ [];
  encrypted_secrets =
      new_encrypted_secret toy
        (record {
          member_id = 2;
          secret_version = 1;
          ciphertext = [];
          nonce = [];
          sender_ephemeral_public_key = [];
          provider = 9;
        })
        owner_key
      ∷ [];
}

abbrev here : ChatBoardStateV1
here = record (board three_members (ban 5 3 9 ∷ [])) {
  configuration = record { configuration = private_settings; signature = [] };
  secrets = first;
}

abbrev client : Bytes → BoardData
client key = record {
  owner_vk = owner_key;
  board_state = here;
  self_sk = key;
  contract_key = [];
  last_read_message_id = none;
  secrets = (1, old) ∷ [];
  current_secret_version = some 1;
  last_secret_rotation = none;
  key_migrated_to_delegate = false;
  self_authorized_member = none;
  invite_chain = [];
  self_member_info = none;
}

abbrev owner : BoardData
owner = client owner_key

abbrev drawn : VerifyingKey → Random
drawn vk = record { ephemeral = 5 ∷ vk; nonce = 7 ∷ [] }

owner-IsSound : IsSound toy here (parameters owner) first
unfolding verify_version_record verify_encrypted_secret new_version_record new_encrypted_secret
    parameters
owner-IsSound = record {
  versions_signed = (refl, tt);
  secrets_signed = (refl, tt);
  versions_distinct = (refl, tt);
  pairs_distinct = (refl, tt);
  secrets_known = (refl, tt);
  current_known = inr refl;
}

checked : check_current_version first ≡ ok tt
unfolding check_current_version new_version_record
checked = refl

private : is_private owner ≡ true
unfolding is_private
private = refl

some_member : is_empty (current_members toy owner) ≡ false
unfolding current_members member_id
some_member = refl

distinct : Distinct (map (member_id toy) three_members)
unfolding member_id
distinct = (refl, (refl, (refl, tt)))

known : get_secret owner ≡ some (old, 1)
unfolding get_secret
known = refl

recorded : contains (map record_version first.versions) 1 ≡ true
unfolding new_version_record
recorded = refl

may : can_participate toy (client (2 ∷ [])) ≡ ok tt
unfolding can_participate member_id_from
may = refl

keys :
    All
      (λ m. member_id toy m ≡ member_id_from toy (2 ∷ []) → m.member.member_vk ≡ 2 ∷ [])
      three_members
unfolding member_id member_id_from
keys = ((λ e. absurd (omega arith)), ((λ e. refl), ((λ e. absurd (omega arith)), tt)))

rotate_secret_lem_example :
    (d : SecretsDelta) × ((rotate_secret toy plain drawn 7 old owner).1 ≡ ok d)
    × (get_secret (rotate_secret toy plain drawn 7 old owner).0 ≡ some (old, 2))
    × ((apply_delta toy first here (parameters owner) (some d)).1 ≡ ok tt)
    × ((apply_delta toy first here (parameters owner) (some d)).0.current_version ≡ 2)
    × ((id : MemberId)
        → contains
            (map pair_of
              (apply_delta toy first here (parameters owner) (some d)).0.encrypted_secrets)
            (2, id)
          ≡ (contains (map (member_id toy) three_members) id
              && not (contains (map banned_user (ban 5 3 9 ∷ [])) id)))
rotate_secret_lem_example =
    rotate_secret_lem toy plain drawn 7 old owner toy-SignsCorrectly refl owner-IsSound checked
      distinct private some_member (omega arith)

generate_missing_member_secrets_lem_example :
    (generate_missing_member_secrets toy plain drawn owner ≡ none
      → (id : MemberId) → contains (map (member_id toy) three_members) id ≡ true
      → contains (map pair_of first.encrypted_secrets) (1, id) ≡ true)
    × ((d : SecretsDelta)
        → generate_missing_member_secrets toy plain drawn owner ≡ some d
        → ((apply_delta toy first here (parameters owner) (some d)).1 ≡ ok tt)
          × ((apply_delta toy first here (parameters owner) (some d)).0.current_version ≡ 1)
          × ((id : MemberId)
              → contains
                  (map pair_of
                    (apply_delta toy first here (parameters owner) (some d)).0.encrypted_secrets)
                  (1, id)
                ≡ (contains (map (member_id toy) three_members) id
                    || (contains (map pair_of first.encrypted_secrets) (1, id)
                        && may_receive toy here (parameters owner) id))))
generate_missing_member_secrets_lem_example =
    generate_missing_member_secrets_lem toy plain drawn owner old 1 toy-SignsCorrectly refl
      owner-IsSound distinct private known recorded

-- What the owner makes of the rotation.
abbrev rotation : SecretsDelta
rotation =
    (rotate_secret_lem toy plain drawn 7 old owner toy-SignsCorrectly refl owner-IsSound checked
      distinct private some_member (omega arith)).0

rotation_made : (rotate_secret toy plain drawn 7 old owner).1 ≡ ok rotation
rotation_made =
    (rotate_secret_lem toy plain drawn 7 old owner toy-SignsCorrectly refl owner-IsSound checked
      distinct private some_member (omega arith)).1

rotate_secret-IsReadBy_example :
    All (IsReadBy toy plain drawn owner old (2 ∷ [])) rotation.new_encrypted_secrets
rotate_secret-IsReadBy_example =
    rotate_secret-IsReadBy toy plain drawn owner old 7 rotation (2 ∷ []) plain-AreCiphers refl keys
      rotation_made

-- The member 2 is removed, and may still take part.
capture-can_participate_example :
    can_participate toy
      (record (capture_self_membership_data toy (parameters owner) (client (2 ∷ []))) {
        board_state = board [] [];
      })
    ≡ ok tt
capture-can_participate_example =
    capture-can_participate toy (parameters owner) (client (2 ∷ [])) (board [] []) may refl
