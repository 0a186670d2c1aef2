-- ===== src/Identity/Padding.antt =====
-- A text that was indented, or given blank lines, imports alike (common/src/board_state/identity.rs).
use free_talk.Shared.{
  Bool, not, ◌&&◌, List, [], ◌∷◌, ◌++◌, map, retain, ◌≡◌, refl, sym, ap, ◌∙◌, All, is_empty,
  if◌then◌else◌, Bool-cases, inl, inr,
}
use mathlib.Core.List.{append-nil}
use free_talk.Model.{Text, ascii, Crypto}
use free_talk.Identity.Text.{lines, trim, starts_with, concat}
use free_talk.Identity.Export.{
  IdentityExport, Codec, push_lines, payload, to_armored_string, from_armored_string,
}
use free_talk.Identity.TextLaws.{OneLine, IsBlank, lines-push_lines, trim_padded}

-- A line with what stands before and after it.
pub record PaddedLine : Type 0 where
  pub before : Text
  pub line : Text
  pub after : Text

-- Spaces before and after, and no line feed.
abbrev pub IsPadded : PaddedLine → Type 0
IsPadded p = (IsBlank p.before × IsBlank p.after) × OneLine (p.before ++ (p.line ++ p.after))

-- The lines with their padding, each ended by a line feed.
abbrev pub padded : List PaddedLine → Text
padded ps = push_lines (map (λ (p : PaddedLine). p.before ++ (p.line ++ p.after)) ps)

-- The lines that are not empty, without their padding.
abbrev pub plain : List PaddedLine → List Text
plain ps = retain (λ line. not (is_empty line)) (map (λ (p : PaddedLine). p.line) ps)

abbrev is_kept : Text → Bool
is_kept line = not (is_empty line) && not (starts_with (ascii "-----") line)

kept : List Text → Text
kept ls = concat (retain is_kept (map trim ls))

payload-lines : (s : Text) → payload s ≡ kept (lines s)
unfolding payload kept
payload-lines s = refl

kept-cons :
    (line : Text) (ls : List Text)
    → kept (line ∷ ls) ≡ (if is_kept (trim line) then trim line ++ kept ls else kept ls)
unfolding kept concat
kept-cons line ls = elim (Bool-cases (is_kept (trim line))) [
  | inl e ↦ rw e refl
  | inr e ↦ rw e refl
]

-- An empty line is not kept.
kept-nil_cons : (ls : List Text) → kept ([] ∷ ls) ≡ kept ls
unfolding kept trim
kept-nil_cons ls = refl

kept-plain :
    (line : Text) (ls ms : List Text)
    → kept ls ≡ kept ms
    → kept (line ∷ ls) ≡ kept (if not (is_empty line) then line ∷ ms else ms)
kept-plain [] ls ms h = kept-nil_cons ls ∙ h
kept-plain (ch ∷ s) ls ms h = kept-cons (ch ∷ s) ls ∙ (rw h refl ∙ sym (kept-cons (ch ∷ s) ms))

kept-padded :
    (ps : List PaddedLine)
    → All IsPadded ps
    → kept (map (λ (p : PaddedLine). p.before ++ (p.line ++ p.after)) ps) ≡ kept (plain ps)
kept-padded [] h = refl
kept-padded (p ∷ ps) h =
    kept-cons (p.before ++ (p.line ++ p.after)) _
    ∙ (rw (trim_padded p.before p.line p.after h.0.0.0 h.0.0.1) (sym (kept-cons p.line _))
        ∙ kept-plain p.line _ (plain ps) (kept-padded ps h.1))

lines-padded :
    (ps : List PaddedLine)
    → All IsPadded ps
    → lines (padded ps) ≡ map (λ (p : PaddedLine). p.before ++ (p.line ++ p.after)) ps
unfolding lines
lines-padded ps h =
    ap lines (sym (append-nil (padded ps))) ∙ (lines-push_lines _ [] (one_line ps h) ∙ append-nil _)
  where
    one_line :
        (ps : List PaddedLine)
        → All IsPadded ps
        → All OneLine (map (λ (p : PaddedLine). p.before ++ (p.line ++ p.after)) ps)
    one_line [] h = tt
    one_line (p ∷ ps) h = (h.0.1, one_line ps h.1)

-- An exported text whose lines are indented or followed by spaces, and stand between blank lines,
-- is imported as the exported text itself.
from_armored_string-padded :
    (c : Crypto) (k : Codec) (e : IdentityExport) (ps : List PaddedLine)
    → All IsPadded ps
    → plain ps ≡ lines (to_armored_string c k e)
    → from_armored_string c k (padded ps) ≡ from_armored_string c k (to_armored_string c k e)
unfolding from_armored_string
from_armored_string-padded c k e ps h same =
    let alike : payload (padded ps) ≡ payload (to_armored_string c k e) =
      payload-lines (padded ps)
      ∙ (ap kept (lines-padded ps h)
          ∙ (kept-padded ps h ∙ (ap kept same ∙ sym (payload-lines _)))) in
    rw alike refl
