-- ===== src/Ecies/Toy.antt =====
-- Small ciphers, with which the theorems on ui/src/util/ecies.rs are applied: a shared secret is a sum,
-- and a ciphertext shows its key.
use free_talk.Shared.{
  ℕ, ◌+◌, [], ◌∷◌, ◌++◌, Option, none, some, take, if◌then◌else◌, ◌==◌, ==_refl, nat_eq, ◌≡◌, refl,
  arith,
}
use free_talk.Model.{Bytes}
use free_talk.Ecies.{Ciphers, clamp, ed25519_to_x25519_private_key}
use free_talk.Ecies.Opens.{AreCiphers}
use free_talk.Examples.{toy, digits}

abbrev strip : Bytes → Bytes → Option Bytes
strip [] text = some text
strip (byte ∷ prefix) [] = none
strip (byte ∷ prefix) (first ∷ text) =
    let rest = strip prefix text in if byte == first then rest else none

strip-append : (prefix text : Bytes) → strip prefix (prefix ++ text) ≡ some text
strip-append [] text = refl
strip-append (byte ∷ prefix) text = rw (==_refl byte) (strip-append prefix text)

abbrev pub plain : Ciphers
plain = record {
  to_montgomery = λ vk. clamp (take 32 vk);
  public_key = λ e. e;
  diffie_hellman = λ a b. (digits a + digits b) ∷ [];
  sha256 = λ m. m;
  sha512 = λ m. m;
  aes_encrypt = λ key nonce text. key ++ (nonce ++ text);
  aes_decrypt =
      λ key nonce text. elim (strip key text) [ none ↦ none | some rest ↦ strip nonce rest ];
}

opened :
    (key nonce text : Bytes)
    → plain.aes_decrypt key nonce (plain.aes_encrypt key nonce text) ≡ some text
opened key nonce text = rw (plain, strip-append key (nonce ++ text)) (strip-append nonce text)

pub plain-AreCiphers : AreCiphers toy plain
unfolding ed25519_to_x25519_private_key
plain-AreCiphers = record {
  agree = λ sk e.
      rw (ed25519_to_x25519_private_key, add_comm (digits (clamp (take 32 sk))) (digits e)) refl;
  opens = opened;
}
  where
    add_comm : (a b : ℕ) → a + b ≡ b + a
    add_comm a b = omega arith
