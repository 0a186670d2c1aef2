-- ===== src/Delegate/NameLaws.antt =====
-- Names of secrets tell their origins and their kinds apart (freetalk-delegate/src/utils.rs).
use free_talk.Shared.{[], ◌∷◌, ◌++◌, ◌≡◌, ◌≢◌, refl, subst, All, All-mono, arith}
use free_talk.Model.{ascii, Bytes, Text}
use free_talk.Delegate.Messages.{Origin, ChatDelegateKey, BoardKey}
use free_talk.Delegate.Host.{Formats, EncodesNames, IsBase58}
use free_talk.Delegate.Names.{
  key_index_suffix, create_origin_key, create_index_key, create_signing_key_secret_key,
}

abbrev pub NoColon : Text → Type 0
NoColon t = All (λ ch. ch ≢ b':') t

-- A text without a colon ends at the first colon.
pub split_colon :
    (p q r s : Text) → NoColon p → NoColon q → p ++ (b':' ∷ r) ≡ q ++ (b':' ∷ s) → (p ≡ q) × (r ≡ s)
split_colon [] [] r s h k e = (refl, cc)
split_colon [] (y ∷ q) r s h k e = absurd (k.0 (cc))
split_colon (x ∷ p) [] r s h k e = absurd (h.0 (cc))
split_colon (x ∷ p) (y ∷ q) r s h k e =
    let tails = split_colon p q r s h.1 k.1 (cc) in let heads : x ≡ y = cc in (cc, tails.1)

module _ (f : Formats) (n : EncodesNames f) where
  encoded-NoColon : (a : Bytes) → NoColon (f.bs58_encode a)
  encoded-NoColon a = All-mono _ _ (f.bs58_encode a) (λ ch h. h.0) (n.bs58-IsBase58 a)

  -- What stands after an encoded name and a colon, and the name, are told by the whole.
  encoded_split :
      (a b : Bytes) (r s : Text)
      → f.bs58_encode a ++ (b':' ∷ r) ≡ f.bs58_encode b ++ (b':' ∷ s)
      → (a ≡ b) × (r ≡ s)
  encoded_split a b r s e =
      let parts = split_colon _ _ r s (encoded-NoColon a) (encoded-NoColon b) e in
      (n.bs58_injective a b parts.0, parts.1)

  signing_key-NoColon : NoColon (ascii "signing_key")
  signing_key-NoColon = omega arith

  -- No encoded name is the word before a signing key's names: it has an underscore.
  not_signing_key : (a : Bytes) → f.bs58_encode a ≢ ascii "signing_key"
  not_signing_key a e = underscore _ e (n.bs58-IsBase58 a)
    where
      underscore : (t : Text) → t ≡ ascii "signing_key" → IsBase58 t → ⊥
      underscore t e h = let k = subst IsBase58 e h in k.1.1.1.1.1.1.1.0.1 refl

  pub origin_key_split :
      (a b : Origin) (k j : ChatDelegateKey)
      → create_origin_key f a k ≡ create_origin_key f b j
      → (a ≡ b) × (f.from_utf8_lossy k ≡ f.from_utf8_lossy j)
  unfolding create_origin_key
  origin_key_split a b k j e = encoded_split a b _ _ e

  pub index_key_split : (a b : Origin) → create_index_key f a ≡ create_index_key f b → a ≡ b
  unfolding create_index_key
  index_key_split a b e = (encoded_split a b _ _ e).0

  -- The name of a value is the name of an index only for one key of one origin.
  pub origin_index_split :
      (a b : Origin) (k : ChatDelegateKey)
      → create_origin_key f a k ≡ create_index_key f b
      → (a ≡ b) × (f.from_utf8_lossy k ≡ key_index_suffix)
  unfolding create_origin_key create_index_key
  origin_index_split a b k e = encoded_split a b _ _ e

  pub signing_split :
      (a b : Origin) (k j : BoardKey)
      → create_signing_key_secret_key f a k ≡ create_signing_key_secret_key f b j
      → (a ≡ b) × (k ≡ j)
  unfolding create_signing_key_secret_key
  signing_split a b k j e =
      let rest =
        (split_colon (ascii "signing_key") (ascii "signing_key") _ _ signing_key-NoColon
          signing_key-NoColon e).1 in
      let parts = encoded_split a b _ _ rest in (parts.0, n.bs58_injective k j parts.1)

  pub origin-ne-signing :
      (a b : Origin) (k : ChatDelegateKey) (j : BoardKey)
      → create_origin_key f a k ≢ create_signing_key_secret_key f b j
  unfolding create_origin_key create_signing_key_secret_key
  origin-ne-signing a b k j e =
      not_signing_key a
        (split_colon _ (ascii "signing_key") _ _ (encoded-NoColon a) signing_key-NoColon e).0

  pub index-ne-signing :
      (a b : Origin) (j : BoardKey) → create_index_key f a ≢ create_signing_key_secret_key f b j
  unfolding create_index_key create_signing_key_secret_key
  index-ne-signing a b j e =
      not_signing_key a
        (split_colon _ (ascii "signing_key") _ _ (encoded-NoColon a) signing_key-NoColon e).0
