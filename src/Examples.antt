-- ===== src/Examples.antt =====
-- A small signature scheme and a small board, at which the theorems are applied. A signature is the
-- key and the message; a hash reads the bytes as digits.
use free_talk.Shared.{ℕ, ◌+◌, ◌*◌, List, [], ◌∷◌, ◌++◌, none, list_eq, nat_eq, ==_refl}
use free_talk.Model.{
  Bytes, Crypto, Signable, SignsCorrectly, PrivacyMode, SealedBytes, AuthorizedMember,
  AuthorizedAdmin, AuthorizedUserBan, MessageActionsState, AuthorizedMessageV1, BoardMessageBody,
  Configuration, AuthorizedConfigurationV1, ChatBoardStateV1, ChatBoardParametersV1,
}

abbrev pub digits : Bytes → ℕ
digits [] = 0
digits (b ∷ bs) = b + 1000 * digits bs

-- The fields that the examples tell apart.
abbrev pub write : Signable → Bytes
write (Signable.member m) = 1 ∷ m.invited_by ∷ m.member_vk
write (Signable.admin a) = 2 ∷ a.member_id ∷ []
write (Signable.user_ban b) = 3 ∷ b.banned_at ∷ b.banned_user ∷ []
write (Signable.member_info i) = 4 ∷ i.member_id ∷ i.version ∷ []
write (Signable.upgrade u) = 5 ∷ u.version ∷ []
write (Signable.message m) = 6 ∷ m.author ∷ m.time ∷ []
write (Signable.secret_version_record r) = 7 ∷ r.version ∷ []
write (Signable.encrypted_secret s) = 8 ∷ s.member_id ∷ s.secret_version ∷ []
write (Signable.configuration n) = 9 ∷ n.configuration_version ∷ []

abbrev pub toy : Crypto
toy = record {
  fast_hash = digits;
  into_writer = write;
  verifying_key = λ k. k;
  sign = λ k m. k ++ m;
  verify = λ k m s. list_eq.is_eq (k ++ m) s;
}

pub toy-SignsCorrectly : SignsCorrectly toy
toy-SignsCorrectly k m = ==_refl (k ++ m)

abbrev pub owner_key : Bytes
owner_key = 9 ∷ []

abbrev pub parameters : ChatBoardParametersV1
parameters = record { owner = owner_key }

-- A configuration of a version and of limits for bans and administrators.
abbrev pub settings : ℕ → ℕ → ℕ → Configuration
settings version max_bans max_admins = record {
  owner_member_id = 9;
  configuration_version = version;
  privacy_mode = PrivacyMode.public;
  display = record { name = SealedBytes.public (1 ∷ 2 ∷ []); description = none };
  max_user_bans = max_bans;
  max_message_size = 100;
  max_title_size = 10;
  max_nickname_size = 10;
  max_admins = max_admins;
  max_board_name = 10;
  max_board_description = 10;
}

abbrev pub signed_settings : ℕ → ℕ → ℕ → AuthorizedConfigurationV1
signed_settings version max_bans max_admins = record {
  configuration = settings version max_bans max_admins;
  signature = 9 ∷ 9 ∷ version ∷ [];
}

abbrev pub member : (key inviter : ℕ) → AuthorizedMember
member key inviter = record {
  member = record { owner_member_id = 9; invited_by = inviter; member_vk = key ∷ [] };
  signature = inviter ∷ 1 ∷ inviter ∷ key ∷ [];
}

abbrev pub admin : ℕ → AuthorizedAdmin
admin id = record { admin = record { member_id = id }; signature = 9 ∷ 2 ∷ id ∷ [] }

abbrev pub ban : (at user issuer : ℕ) → AuthorizedUserBan
ban at user issuer = record {
  ban = record { owner_member_id = 9; banned_at = at; banned_user = user };
  banned_by = issuer;
  signature = issuer ∷ 3 ∷ at ∷ user ∷ [];
}

-- The owner 9 invited 1, who invited 2; 3 was invited by the owner.
abbrev pub three_members : List AuthorizedMember
three_members = member 1 9 ∷ member 2 1 ∷ member 3 9 ∷ []

abbrev pub no_actions : MessageActionsState
no_actions = record { edited_content = []; edited_categories = []; deleted = []; reactions = [] }

-- A public message of another content type than the known ones.
abbrev pub message : (author at : ℕ) → AuthorizedMessageV1
message author at = record {
  message = record {
    board_owner = 9;
    author = author;
    time = at;
    content = BoardMessageBody.public 77 1 (5 ∷ []);
  };
  signature = author ∷ 6 ∷ author ∷ at ∷ [];
}

abbrev pub board_with :
    List AuthorizedMember → List AuthorizedUserBan → List AuthorizedMessageV1 → ChatBoardStateV1
board_with members bans messages = record {
  configuration = signed_settings 1 2 2;
  admin = [];
  bans = bans;
  members = members;
  member_info = [];
  secrets = record { current_version = 0; versions = []; encrypted_secrets = [] };
  recent_messages = record { messages = messages; actions_state = no_actions };
  upgrade = none;
  version = 1;
}

abbrev pub board : List AuthorizedMember → List AuthorizedUserBan → ChatBoardStateV1
board members bans = board_with members bans []
