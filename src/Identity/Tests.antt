-- ===== src/Identity/Tests.antt =====
-- Examples for common/src/board_state/identity.rs, with bytes far higher for base 58.
use free_talk.Shared.{ℕ, ◌+◌, ◌-◌, List, [], ◌∷◌, ◌++◌, map, none, some, ok, ◌≡◌, ◌↔◌, refl, arith}
use free_talk.Model.{Bytes, Text, AuthorizedMember}
use free_talk.Examples.{toy, owner_key}
use free_talk.Identity.Text.{lines, concat, is_whitespace}
use free_talk.Identity.Export.{
  IdentityExport, Codec, ReadsBackIdentity, armor_begin, armor_end, to_armored_string,
  from_armored_string,
}
use free_talk.Identity.TextLaws.{IsBlank}
use free_talk.Identity.Consistent.{
  IsConsistent, Decodes, from_armored_string_iff, import_export_iff,
}
use free_talk.Identity.Padding.{PaddedLine}

abbrev member : ℕ → ℕ → Bytes → AuthorizedMember
member key inviter by = record {
  member = record { owner_member_id = 9; invited_by = inviter; member_vk = key ∷ [] };
  signature = by ++ (1 ∷ inviter ∷ key ∷ []);
}

-- The owner invited 1, who invited 2.
abbrev export : IdentityExport
export = record {
  board_owner = owner_key;
  signing_key = 2 ∷ [];
  authorized_member = member 2 1 (1 ∷ []);
  invite_chain = member 1 9 owner_key ∷ [];
  member_info = none;
  board_name = none;
}

-- A codec that tells the export from all else.
abbrev codec : Codec
codec = record {
  bs58_encode = map (λ (x : ℕ). x + 20000);
  bs58_decode = λ t. some (map (λ (x : ℕ). x - 20000) t);
  into_writer = λ e. e.board_owner ++ e.signing_key;
  from_reader = λ b. elim b [
    | [] ↦ none
    | ◌∷◌ first rest ↦ some (record export { board_owner = first ∷ []; signing_key = rest })
  ];
}

codec-ReadsBackIdentity : ReadsBackIdentity codec export
unfolding is_whitespace
codec-ReadsBackIdentity = record {
  decode-encode = refl;
  encode-IsPrinted = ((refl, omega arith), ((refl, omega arith), tt));
  encode_nonempty = refl;
  read-write = refl;
}

armored : Text
armored = to_armored_string toy codec export

import_export_iff_example :
    (from_armored_string toy codec (to_armored_string toy codec export) ≡ ok export)
    ↔ IsConsistent toy export
import_export_iff_example = import_export_iff toy codec export codec-ReadsBackIdentity

imported : from_armored_string toy codec (to_armored_string toy codec export) ≡ ok export
unfolding from_armored_string to_armored_string lines free_talk.Identity.Text.trim
    free_talk.Identity.Text.starts_with free_talk.Identity.Text.chunks
    free_talk.Model.member_id_from free_talk.Model.member_id free_talk.Member.Chain.verify_signature
imported = refl

from_armored_string_iff_example :
    (from_armored_string toy codec (to_armored_string toy codec export) ≡ ok export)
    ↔ (Decodes toy codec (to_armored_string toy codec export) export × IsConsistent toy export)
from_armored_string_iff_example =
    from_armored_string_iff toy codec (to_armored_string toy codec export) export

-- The inviter 77 is unknown, and nobody signed the membership: it is imported.
abbrev unsigned : IdentityExport
unsigned = record export {
  authorized_member = record {
    member = record { owner_member_id = 9; invited_by = 77; member_vk = 2 ∷ [] };
    signature = [];
  };
  invite_chain = [];
}

unsigned-IsConsistent : IsConsistent toy unsigned
unfolding free_talk.Identity.Consistent.last_key free_talk.Model.member_id_from
unsigned-IsConsistent = record { own_key = refl; member_signed = λ vk h. cc; chain_signed = tt }

abbrev indent : Text → PaddedLine
indent line = record { before = b' ' ∷ b' ' ∷ []; line = line; after = b' ' ∷ [] }

spaces : IsBlank (b' ' ∷ b' ' ∷ []) × IsBlank (b' ' ∷ [])
unfolding is_whitespace
spaces = ((refl, (refl, tt)), (refl, tt))

abbrev messy : List PaddedLine
messy =
    indent [] ∷ indent armor_begin ∷ indent (20009 ∷ 20002 ∷ []) ∷ indent [] ∷ indent armor_end ∷ []
