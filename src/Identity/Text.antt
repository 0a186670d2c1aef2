-- ===== src/Identity/Text.antt =====
-- The functions on text that common/src/board_state/identity.rs calls: `lines`, `trim`,
-- `starts_with`, `chunks` and `collect`. A text is the list of its characters. `lines` also drops a
-- carriage return before a line feed, which `trim` takes off here.
use free_talk.Shared.{
  ℕ, zero, suc, Bool, true, false, ◌&&◌, ◌||◌, List, [], ◌∷◌, ◌++◌, ◌-◌, ◌==◌, nat_eq, leb,
  is_empty, if◌then◌else◌,
}
use mathlib.Core.List.{reverse}
use free_talk.Model.{Text}

-- `char::is_whitespace`
unfoldable pub is_whitespace : ℕ → Bool
is_whitespace ch =
    (leb 9 ch && leb ch 13)
    || ch == 32
    || ch == 0x85
    || ch == 0xA0
    || ch == 0x1680
    || (leb 0x2000 ch && leb ch 0x200A)
    || ch == 0x2028
    || ch == 0x2029
    || ch == 0x202F
    || ch == 0x205F
    || ch == 0x3000

abbrev pub push : ℕ → List Text → List Text
push ch [] = (ch ∷ []) ∷ []
push ch (line ∷ rest) = (ch ∷ line) ∷ rest

unfoldable pub lines : Text → List Text
lines [] = []
lines (ch ∷ s) = let rest = lines s in if ch == b'\n' then [] ∷ rest else push ch rest

unfoldable pub trim_start : Text → Text
unfolding is_whitespace
trim_start [] = []
trim_start (ch ∷ s) = if is_whitespace ch then trim_start s else ch ∷ s

unfoldable pub trim : Text → Text
unfolding trim_start
trim s = reverse (trim_start (reverse (trim_start s)))

unfoldable pub starts_with : Text → Text → Bool
starts_with [] s = true
starts_with (ch ∷ start) [] = false
starts_with (ch ∷ start) (other ∷ s) = ch == other && starts_with start s

-- The chunks, where the first has room for some more.
unfoldable pub chunk_loop : (width room : ℕ) → (chunk rest : Text) → List Text
chunk_loop width room chunk [] = if is_empty chunk then [] else chunk ∷ []
chunk_loop width zero chunk (ch ∷ rest) = chunk ∷ chunk_loop width (width - 1) (ch ∷ []) rest
chunk_loop width (suc room) chunk (ch ∷ rest) = chunk_loop width room (chunk ++ ch ∷ []) rest

unfoldable pub chunks : ℕ → Text → List Text
unfolding chunk_loop
chunks width s = chunk_loop width width [] s

unfoldable pub concat : List Text → Text
concat [] = []
concat (line ∷ rest) = line ++ concat rest
