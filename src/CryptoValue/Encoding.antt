-- ===== src/CryptoValue/Encoding.antt =====
-- Which texts stand for a key or a signature (common/src/crypto_values.rs).
use free_talk.Shared.{
  ℕ, Bool, true, false, List, [], ◌∷◌, ◌++◌, Option, none, some, Result, ok, err, >>=-eq-ok, ensure,
  length, ◌==◌, list_eq, nat_eq, nat_beq_iff, ==_false, Bool-cases, inl, inr, ◌≡◌, ◌≢◌, ◌↔◌, refl,
  sym, ap, ◌∙◌, All, arith,
}
use mathlib.Core.List.{append_assoc, append-nil}
use free_talk.Model.{Bytes, Text, ascii}
use free_talk.CryptoValue.{
  CryptoValue, verifying_key, signing_key, signature, ParseError, invalid_format, base58_error,
  Codec, IsBase58, version_prefix, push, split, type_str, key_bytes, starts_with, to_encoded_string,
  decoded, value_of, from_parts, from_encoded_string, from_str,
}

-- A value of the type that it says: 32 bytes for a key, and a point for a verifying one, or 64
-- for a signature.
abbrev pub IsValue : Codec → CryptoValue → Type 0
IsValue k (verifying_key key) = (length key ≡ 32) × (k.is_point key ≡ true)
IsValue k (signing_key key) = length key ≡ 32
IsValue k (signature bytes) = length bytes ≡ 64

abbrev NoColon : Text → Type 0
NoColon s = All (λ ch. ch ≢ b':') s

split_part : (p s : Text) → NoColon p → split (p ++ (b':' ∷ s)) ≡ p ∷ split s
unfolding split
split_part [] s h = refl
split_part (ch ∷ p) s h = rw (==_false ch b':' h.0, split_part p s h.1) refl

split_last : (p : Text) → NoColon p → split p ≡ p ∷ []
unfolding split
split_last [] h = refl
split_last (ch ∷ p) h = rw (==_false ch b':' h.0, split_last p h.1) refl

-- The parts with a colon before each.
join : List Text → Text
join [] = []
join (p ∷ ps) = b':' ∷ (p ++ join ps)

join-push :
    (ch : ℕ) (ps : List Text) (s : Text) → join ps ≡ b':' ∷ s → join (push ch ps) ≡ b':' ∷ ch ∷ s
unfolding join
join-push ch [] s h = cc
join-push ch (p ∷ ps) s h = cc

join-split : (s : Text) → join (split s) ≡ b':' ∷ s
unfolding split join
join-split [] = refl
join-split (ch ∷ s) = elim (Bool-cases (ch == b':')) [
  | inl e ↦ rw (e, join-split s, (nat_beq_iff ch b':').0 e) refl
  | inr e ↦ rw e (join-push ch (split s) s (join-split s))
]

module _ (k : Codec) (b58 : IsBase58 k) where
  value_of-type_str : (v : CryptoValue) → IsValue k v → value_of k (type_str v) (key_bytes v) ≡ ok v
  unfolding value_of type_str key_bytes
  value_of-type_str (verifying_key key) h = rw (h.0, h.1) refl
  value_of-type_str (signing_key key) h = rw h refl
  value_of-type_str (signature bytes) h = rw h refl

  value_of_sound :
      (t : Text) (b : Bytes) (v : CryptoValue)
      → value_of k t b ≡ ok v
      → (t ≡ type_str v) × (b ≡ key_bytes v) × IsValue k v
  unfolding value_of type_str key_bytes
  value_of_sound t b (verifying_key key) h = ground (
    arith,
    list_eq.is_eq_iff t (ascii "vk"),
    list_eq.is_eq_iff t (ascii "sk"),
    list_eq.is_eq_iff t (ascii "sig"),
  )
  value_of_sound t b (signing_key key) h = ground (
    arith,
    list_eq.is_eq_iff t (ascii "vk"),
    list_eq.is_eq_iff t (ascii "sk"),
    list_eq.is_eq_iff t (ascii "sig"),
  )
  value_of_sound t b (signature key) h = ground (
    arith,
    list_eq.is_eq_iff t (ascii "vk"),
    list_eq.is_eq_iff t (ascii "sk"),
    list_eq.is_eq_iff t (ascii "sig"),
  )

  type_str-NoColon : (v : CryptoValue) → NoColon (type_str v)
  unfolding type_str
  type_str-NoColon (verifying_key key) = omega arith
  type_str-NoColon (signing_key key) = omega arith
  type_str-NoColon (signature bytes) = omega arith

  split-to_encoded_string :
      (v : CryptoValue)
      → split (to_encoded_string k v)
        ≡ ascii "river" ∷ ascii "v1" ∷ type_str v ∷ k.bs58_encode (key_bytes v) ∷ []
  unfolding to_encoded_string
  split-to_encoded_string v =
      split_part (ascii "river")
        (ascii "v1" ++ (b':' ∷ (type_str v ++ (b':' ∷ k.bs58_encode (key_bytes v))))) (omega arith)
      ∙ ap (◌∷◌ (ascii "river")) (
          split_part (ascii "v1") (type_str v ++ (b':' ∷ k.bs58_encode (key_bytes v))) (omega arith)
          ∙ ap (◌∷◌ (ascii "v1")) (
              split_part (type_str v) (k.bs58_encode (key_bytes v)) (type_str-NoColon v)
              ∙ ap (◌∷◌ (type_str v)) (split_last _ (b58.encode_no_colon (key_bytes v)))))

  from-to_encoded_string :
      (v : CryptoValue) → IsValue k v → from_encoded_string k (to_encoded_string k v) ≡ ok v
  unfolding from_encoded_string from_parts
  from-to_encoded_string v h = rw (split-to_encoded_string v) (
      rw ((b58.decode_iff (k.bs58_encode (key_bytes v)) (key_bytes v)).1 refl, decoded)
        (value_of-type_str v h))

  decoded_ok : (t : Text) (b : Bytes) → decoded k t ≡ ok b → t ≡ k.bs58_encode b
  decoded_ok t b h = (b58.decode_iff t b).0 (found (k.bs58_decode t) h)
    where
      found :
          (o : Option Bytes)
          → ◌≡◌ {A = Result ParseError Bytes}
              (elim o [ none ↦ err base58_error | some x ↦ ok x ])
              (ok b)
          → o ≡ some b
      found none h = cc
      found (some x) h = cc

  from_parts_sound :
      (ps : List Text) (v : CryptoValue)
      → from_parts k ps ≡ ok v
      → (join ps ≡ b':' ∷ to_encoded_string k v) × IsValue k v
  unfolding from_parts join to_encoded_string
  from_parts_sound [] v h = cc
  from_parts_sound (a ∷ []) v h = cc
  from_parts_sound (a ∷ b ∷ []) v h = cc
  from_parts_sound (a ∷ b ∷ t ∷ []) v h = cc
  from_parts_sound (a ∷ b ∷ t ∷ x ∷ y ∷ ps) v h = cc
  from_parts_sound (a ∷ b ∷ t ∷ x ∷ []) v h =
      let prefix = >>=-eq-ok (ensure (a ++ (b':' ∷ b) == version_prefix) invalid_format) _ h in
      let bytes = >>=-eq-ok (decoded k x) _ prefix.2 in
      let sound = value_of_sound t bytes.0 v bytes.2 in
      (
        joined (ensured _ prefix.1) sound.0
            (decoded_ok x bytes.0 bytes.1 ∙ ap k.bs58_encode sound.1),
        sound.2,
      )
    where
      ensured : (test : Bool) {u : Unit {0}} → ensure test invalid_format ≡ ok u → test ≡ true
      ensured true h = refl
      ensured false h = cc

      joined :
          (a ++ (b':' ∷ b) == version_prefix) ≡ true
          → t ≡ type_str v
          → x ≡ k.bs58_encode (key_bytes v)
          → b':' ∷ (a ++ (b':' ∷ (b ++ (b':' ∷ (t ++ (b':' ∷ (x ++ [])))))))
            ≡ b':'
              ∷ (version_prefix ++ (b':' ∷ (type_str v ++ (b':' ∷ k.bs58_encode (key_bytes v)))))
      joined e f g =
          ap (λ r. b':' ∷ (a ++ (b':' ∷ (b ++ (b':' ∷ (t ++ (b':' ∷ r))))))) (append-nil x ∙ g)
          ∙ (ap
                (λ r.
                  b':'
                  ∷ (a ++ (b':' ∷ (b ++ (b':' ∷ (r ++ (b':' ∷ k.bs58_encode (key_bytes v))))))))
                f
              ∙ ap (◌∷◌ b':') (
                  sym (append_assoc a (b':' ∷ b) _)
                  ∙ ap (λ r. r ++ (b':' ∷ (type_str v ++ (b':' ∷ k.bs58_encode (key_bytes v)))))
                      ((list_eq.is_eq_iff (a ++ (b':' ∷ b)) version_prefix).0 e)))

  -- A text with the version reads as a value exactly when the value is of its type's length, a
  -- verifying key is a point, and the text is that which the value is written as.
  pub from_encoded_string_iff :
      (s : Text) (v : CryptoValue)
      → (from_encoded_string k s ≡ ok v) ↔ (IsValue k v × (s ≡ to_encoded_string k v))
  unfolding from_encoded_string
  from_encoded_string_iff s v = (
    λ h.
        let sound = from_parts_sound (split s) v h in
        let same = sym (join-split s) ∙ sound.0 in (sound.1, cc),
    λ p. rw p.1 (from-to_encoded_string v p.0),
  )

  -- A text without a colon does not start with the version.
  no_prefix : (s : Text) → NoColon s → starts_with version_prefix s ≡ false
  unfolding starts_with
  no_prefix [] h = refl
  no_prefix (u ∷ []) h = ground arith
  no_prefix (u ∷ v ∷ []) h = ground arith
  no_prefix (u ∷ v ∷ w ∷ []) h = ground arith
  no_prefix (u ∷ v ∷ w ∷ x ∷ []) h = ground arith
  no_prefix (u ∷ v ∷ w ∷ x ∷ y ∷ []) h = ground arith
  no_prefix (u ∷ v ∷ w ∷ x ∷ y ∷ z ∷ s) h =
      rw (==_false b':' z (λ e. h.1.1.1.1.1.0 (sym e))) (ground arith)

  has_prefix : (v : CryptoValue) → starts_with version_prefix (to_encoded_string k v) ≡ true
  unfolding starts_with to_encoded_string
  has_prefix v = refl

  -- `parse` reads every value back from its text, and the plain base 58 of 32 bytes as a signing key.
  from_str_reads :
      ((v : CryptoValue) → IsValue k v → from_str k (to_encoded_string k v) ≡ ok v)
      × ((key : Bytes) → length key ≡ 32 → from_str k (k.bs58_encode key) ≡ ok (signing_key key))
  unfolding from_str
  from_str_reads = (
    λ v h. rw (has_prefix v) (from-to_encoded_string v h),
    λ key h.
        rw (no_prefix _ (b58.encode_no_colon key))
          (rw ((b58.decode_iff (k.bs58_encode key) key).1 refl, decoded) (rw h refl)),
  )
