-- ===== src/Identity/RoundTrip.antt =====
-- What is exported is imported (common/src/board_state/identity.rs).
use free_talk.Shared.{
  ℕ, ◌≤◌, Bool, true, false, not, ◌&&◌, List, [], ◌∷◌, ◌++◌, map, ok, ◌>>◌, ensure, retain, ◌≡◌,
  ◌≢◌, refl, sym, ap, ◌∙◌, All, All-mono, length, is_empty, ◌==◌, nat_eq, list_eq, ==_false, arith,
}
use free_talk.Model.{Text, ascii, Crypto}
use free_talk.Identity.Text.{is_whitespace, lines, trim, starts_with, chunks, concat}
use free_talk.Identity.Export.{
  IdentityExport, key_mismatch, Codec, ReadsBackIdentity, IsPrinted, armor_begin, armor_end,
  line_width, push_lines, payload, to_armored_string, validate_invite_chain, from_armored_string,
}
use free_talk.Identity.TextLaws.{
  OneLine, lines_line, lines_last, lines-push_lines, trim-NoSpace, concat-chunks, IsChunk,
  chunks-IsChunk,
}

-- A line that `from_armored_string` keeps.
abbrev is_kept : Text → Bool
is_kept line = not (is_empty line) && not (starts_with (ascii "-----") line)

armor_line : (s : Text) → OneLine s → is_empty s ≡ false → lines s ≡ s ∷ []
armor_line [] h e = cc
armor_line (ch ∷ s) h e = lines_last ch s h

-- The lines of an armoured text are the two markers and the chunks.
armored_lines :
    (cs : List Text)
    → All OneLine cs
    → lines (armor_begin ++ (b'\n' ∷ (push_lines cs ++ armor_end)))
      ≡ armor_begin ∷ (cs ++ armor_end ∷ [])
armored_lines cs h =
    lines_line armor_begin (push_lines cs ++ armor_end) (omega arith)
    ∙ ap (◌∷◌ armor_begin)
        (lines-push_lines cs armor_end h ∙ ap (◌++◌ cs) (armor_line armor_end (omega arith) refl))

chunk_kept : (line : Text) → is_empty line ≡ false → All IsPrinted line → is_kept (trim line) ≡ true
unfolding starts_with
chunk_kept [] e h = cc
chunk_kept (ch ∷ s) e h =
    rw (trim-NoSpace (ch ∷ s) (All-mono _ _ (ch ∷ s) (λ x p. p.0) h))
      (rw (==_false b'-' ch (λ e. h.0.1 (sym e))) refl)

begin_dropped : is_kept (trim armor_begin) ≡ false
unfolding trim starts_with
begin_dropped = refl

end_dropped : is_kept (trim armor_end) ≡ false
unfolding trim starts_with
end_dropped = refl

kept_chunks :
    (cs : List Text)
    → All (IsChunk IsPrinted line_width) cs
    → concat (retain is_kept (map trim (cs ++ armor_end ∷ []))) ≡ concat cs
unfolding concat
kept_chunks [] h = rw end_dropped refl
kept_chunks (line ∷ cs) h = rw (chunk_kept line h.0.0 h.0.2) (
    rw (trim-NoSpace line (All-mono _ _ line (λ x p. p.0) h.0.2))
      (ap (◌++◌ line) (kept_chunks cs h.1)))

newline_blank : is_whitespace b'\n' ≡ true
unfolding is_whitespace
newline_blank = refl

printed-OneLine : (ch : ℕ) → IsPrinted ch → ch ≢ b'\n'
printed-OneLine ch p e = absurd (cc (newline_blank, p.0, ap is_whitespace e))

module _ (c : Crypto) (k : Codec) (e : IdentityExport) (reads : ReadsBackIdentity k e) where
  chunked : All (IsChunk IsPrinted line_width) (chunks line_width (k.bs58_encode (k.into_writer e)))
  chunked = chunks-IsChunk IsPrinted line_width _ (omega arith) reads.encode-IsPrinted

  lines-to_armored_string :
      lines (to_armored_string c k e)
      ≡ armor_begin ∷ (chunks line_width (k.bs58_encode (k.into_writer e)) ++ armor_end ∷ [])
  unfolding to_armored_string
  lines-to_armored_string = armored_lines (chunks line_width (k.bs58_encode (k.into_writer e))) (
      All-mono (IsChunk IsPrinted line_width) OneLine _
        (λ line h. All-mono _ _ line printed-OneLine h.2) chunked)

  payload-to_armored_string : payload (to_armored_string c k e) ≡ k.bs58_encode (k.into_writer e)
  unfolding payload
  payload-to_armored_string =
      rw lines-to_armored_string
        (rw begin_dropped (kept_chunks _ chunked ∙ concat-chunks line_width _))

  -- An exported text has the marker lines, and between them lines of one to 64 characters.
  to_armored_string-lines :
      (body : List Text) × (lines (to_armored_string c k e)
        ≡ armor_begin ∷ (body ++ armor_end ∷ []))
      × All (λ line. (is_empty line ≡ false) × (length line ≤ 64)) body
      × (concat body ≡ k.bs58_encode (k.into_writer e))
  to_armored_string-lines = (
    chunks line_width (k.bs58_encode (k.into_writer e)),
    lines-to_armored_string,
    All-mono _ _ _ (λ line h. (h.0, h.1)) chunked,
    concat-chunks line_width _,
  )

  pub from_armored_string-to_armored_string : from_armored_string c k (to_armored_string c k e) ≡ (
      ensure (c.verifying_key e.signing_key == e.authorized_member.member.member_vk) key_mismatch
      >> (validate_invite_chain c k e >> ok e))
  unfolding from_armored_string
  from_armored_string-to_armored_string =
      rw (payload-to_armored_string, reads.encode_nonempty, reads.decode-encode, reads.read-write)
        refl
