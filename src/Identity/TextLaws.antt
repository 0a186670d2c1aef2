-- ===== src/Identity/TextLaws.antt =====
-- Laws of `lines`, `trim` and `chunks`, for common/src/board_state/identity.rs.
use free_talk.Shared.{
  ℕ, zero, suc, ◌+◌, ◌-◌, ◌≤◌, true, false, List, [], ◌∷◌, ◌++◌, ◌≡◌, ◌≢◌, refl, sym, ap, subst,
  ◌∙◌, All, All-append, length, length-append, is_empty, nat_eq, ==_false, if◌then◌else◌,
  Bool-cases, inl, inr, arith,
}
use mathlib.Core.List.{reverse, append_assoc, append-nil, reverse-append, reverse-reverse}
use free_talk.Model.{Text}
use free_talk.Identity.Text.{is_whitespace, lines, trim_start, trim, chunk_loop, chunks, concat}
use free_talk.Identity.Export.{push_lines}

abbrev pub OneLine : Text → Type 0
OneLine s = All (λ ch. ch ≢ b'\n') s

abbrev pub IsBlank : Text → Type 0
IsBlank s = All (λ ch. is_whitespace ch ≡ true) s

abbrev pub NoSpace : Text → Type 0
NoSpace s = All (λ ch. is_whitespace ch ≡ false) s

pub lines_line : (l s : Text) → OneLine l → lines (l ++ (b'\n' ∷ s)) ≡ l ∷ lines s
unfolding lines
lines_line [] s h = refl
lines_line (ch ∷ l) s h = rw (==_false ch b'\n' h.0, lines_line l s h.1) refl

pub lines_last : (ch : ℕ) (l : Text) → OneLine (ch ∷ l) → lines (ch ∷ l) ≡ (ch ∷ l) ∷ []
unfolding lines
lines_last ch [] h = rw (==_false ch b'\n' h.0) refl
lines_last ch (x ∷ l) h = rw (==_false ch b'\n' h.0, lines_last x l h.1) refl

pub lines-push_lines :
    (ls : List Text) (s : Text) → All OneLine ls → lines (push_lines ls ++ s) ≡ ls ++ lines s
unfolding push_lines
lines-push_lines [] s h = refl
lines-push_lines (l ∷ ls) s h =
    ap lines (append_assoc l (b'\n' ∷ push_lines ls) s)
    ∙ (lines_line l (push_lines ls ++ s) h.0 ∙ ap (◌∷◌ l) (lines-push_lines ls s h.1))

All-reverse : (P : ℕ → Type 0) (s : Text) → All P s → All P (reverse s)
All-reverse P [] h = tt
All-reverse P (ch ∷ s) h =
    subst (All P) (sym (reverse-append (ch ∷ []) s))
      (All-append P (reverse s) (ch ∷ []) (All-reverse P s h.1) (h.0, tt))

trim_start-NoSpace : (s : Text) → NoSpace s → trim_start s ≡ s
unfolding trim_start
trim_start-NoSpace [] h = refl
trim_start-NoSpace (ch ∷ s) h = rw h.0 refl

pub trim-NoSpace : (s : Text) → NoSpace s → trim s ≡ s
unfolding trim
trim-NoSpace s h =
    rw (trim_start-NoSpace s h)
      (rw (trim_start-NoSpace (reverse s) (All-reverse _ s h)) (reverse-reverse s))

trim_start_blank : (b s : Text) → IsBlank b → trim_start (b ++ s) ≡ trim_start s
unfolding trim_start
trim_start_blank [] s h = refl
trim_start_blank (ch ∷ b) s h = rw h.0 (trim_start_blank b s h.1)

trim_start_after :
    (s a : Text)
    → trim_start (s ++ a) ≡ (if is_empty (trim_start s) then trim_start a else trim_start s ++ a)
unfolding trim_start
trim_start_after [] a = refl
trim_start_after (ch ∷ s) a = elim (Bool-cases (is_whitespace ch)) [
  | inl e ↦ rw e (trim_start_after s a)
  | inr e ↦ rw e refl
]

-- Spaces before and after change nothing.
pub trim_padded : (b s a : Text) → IsBlank b → IsBlank a → trim (b ++ (s ++ a)) ≡ trim s
unfolding trim
trim_padded b s a h k =
    rw (trim_start_blank b (s ++ a) h) (rw (trim_start_after s a) (rest (trim_start s)))
  where
    blank : trim_start a ≡ []
    blank = ap trim_start (sym (append-nil a)) ∙ trim_start_blank a [] k

    rest :
        (t : Text)
        → reverse (trim_start (reverse (if is_empty t then trim_start a else t ++ a)))
          ≡ reverse (trim_start (reverse t))
    rest [] = rw blank refl
    rest (ch ∷ t) =
        ap (λ r. reverse (trim_start r)) (reverse-append (ch ∷ t) a)
        ∙ ap reverse (trim_start_blank (reverse a) (reverse (ch ∷ t)) (All-reverse _ a k))

concat-chunk_loop : (w r : ℕ) (c s : Text) → concat (chunk_loop w r c s) ≡ c ++ s
unfolding chunk_loop concat
concat-chunk_loop w r [] [] = refl
concat-chunk_loop w r (x ∷ c) [] = refl
concat-chunk_loop w zero c (ch ∷ s) = ap (◌++◌ c) (concat-chunk_loop w (w - 1) (ch ∷ []) s)
concat-chunk_loop w (suc r) c (ch ∷ s) =
    concat-chunk_loop w r (c ++ ch ∷ []) s ∙ append_assoc c (ch ∷ []) s

pub concat-chunks : (w : ℕ) (s : Text) → concat (chunks w s) ≡ s
unfolding chunks
concat-chunks w s = concat-chunk_loop w w [] s

-- Every chunk has something, no more than the width, and only characters of the text.
abbrev pub IsChunk : (ℕ → Type 0) → ℕ → Text → Type 0
IsChunk P w chunk = (is_empty chunk ≡ false) × (length chunk ≤ w) × All P chunk

chunk_loop-IsChunk :
    (P : ℕ → Type 0) (w r : ℕ) (c s : Text)
    → 1 ≤ w
    → length c + r ≤ w
    → 1 ≤ length c + r
    → All P c
    → All P s
    → All (IsChunk P w) (chunk_loop w r c s)
unfolding chunk_loop
chunk_loop-IsChunk P w r [] [] v h n p q = tt
chunk_loop-IsChunk P w r (x ∷ c) [] v h n p q = ((refl, omega arith, p), tt)
chunk_loop-IsChunk P w zero [] (ch ∷ s) v h n p q = absurd (omega arith)
chunk_loop-IsChunk P w zero (x ∷ c) (ch ∷ s) v h n p q = (
  (refl, omega arith, p),
  chunk_loop-IsChunk P w (w - 1) (ch ∷ []) s v (omega arith) (omega arith) (q.0, tt) q.1,
)
chunk_loop-IsChunk P w (suc r) c (ch ∷ s) v h n p q =
    chunk_loop-IsChunk P w r (c ++ ch ∷ []) s v (omega (arith, length-append c (ch ∷ [])))
      (omega (arith, length-append c (ch ∷ []))) (All-append P c (ch ∷ []) p (q.0, tt)) q.1

pub chunks-IsChunk :
    (P : ℕ → Type 0) (w : ℕ) (s : Text) → 1 ≤ w → All P s → All (IsChunk P w) (chunks w s)
unfolding chunks
chunks-IsChunk P w s v q = chunk_loop-IsChunk P w w [] s v (omega arith) (omega arith) tt q
