-- ===== src/BoardData/Rotate.antt =====
-- `rotate_secret` of ui/src/board_data.rs, and what `apply_delta` of common/src/board_state/secret.rs
-- makes of the delta.
use free_talk.Shared.{
  ◌+◌, ◌^◌, ◌<◌, true, false, not, ◌&&◌, some, ok, contains, map, is_empty, Distinct, ◌==◌, ==_refl,
  nat_eq, pair_eq, list_eq, ◌≡◌, refl, ap, ◌∙◌,
}
use Prim.Native.Nat.{◌%◌}
use native.Mathlib.Nat.{mod-eq_of_lt}
use free_talk.Shared.HashMap
use free_talk.Model.{
  Crypto, Bytes, SignsCorrectly, VerifyingKey, MemberId, SystemTime, SecretsDelta, member_id,
}
use free_talk.Ecies.{Ciphers, Random}
use free_talk.Secret.{pair_of, prune, sorted, check_current_version, apply_delta}
use free_talk.Secret.Keeps.{IsSound}
use free_talk.Member.Downstream.{banned_user}
use free_talk.BoardData.{BoardData, is_private, get_secret, parameters}
use free_talk.BoardData.Secrets.{current_members, rotate_secret}
use free_talk.BoardData.Rotation.{rotated, apply_delta-rotated, contains-rotated}

-- The owner of a private board rotates the secret, where own signatures verify, the board's secrets
-- are sound and checked, its members are distinct and not all banned, and the next version is below
-- 2^32. The client has the new secret as its current one, with the next version; the delta applies
-- without an error to the board's secrets, raises their current version by one, and leaves a secret
-- of that version for exactly the members that are not banned.
pub rotate_secret_lem :
    (c : Crypto) (k : Ciphers) (random : VerifyingKey → Random) (now : SystemTime) (secret : Bytes)
    (self : BoardData)
    → SignsCorrectly c
    → self.owner_vk ≡ c.verifying_key self.self_sk
    → IsSound c self.board_state (parameters self) self.board_state.secrets
    → check_current_version self.board_state.secrets ≡ ok tt
    → Distinct (map (member_id c) self.board_state.members)
    → is_private self ≡ true
    → is_empty (current_members c self) ≡ false
    → self.board_state.secrets.current_version + 1 < 2 ^ 32
    → (d : SecretsDelta) × ((rotate_secret c k random now secret self).1 ≡ ok d)
      × (get_secret (rotate_secret c k random now secret self).0
          ≡ some (secret, self.board_state.secrets.current_version + 1))
      × ((apply_delta c self.board_state.secrets self.board_state (parameters self) (some d)).1
          ≡ ok tt)
      × ((apply_delta c self.board_state.secrets self.board_state
            (parameters self)
            (some d)).0.current_version
          ≡ self.board_state.secrets.current_version + 1)
      × ((id : MemberId)
          → contains
              (map pair_of
                (apply_delta c self.board_state.secrets self.board_state
                  (parameters self)
                  (some d)).0.encrypted_secrets)
              (self.board_state.secrets.current_version + 1, id)
            ≡ (contains (map (member_id c) self.board_state.members) id
                && not (contains (map banned_user self.board_state.bans) id)))
unfolding rotate_secret get_secret sorted prune
rotate_secret_lem c k random now secret self signs owner sound checked members private some_member
      small =
    let v = self.board_state.secrets.current_version + 1 in
    let wrap : v % 2 ^ 32 ≡ v = mod-eq_of_lt small in
    let own : (self.owner_vk == c.verifying_key self.self_sk) ≡ true =
      (list_eq.is_eq_iff self.owner_vk (c.verifying_key self.self_sk)).1 owner in
    let after : (rotate_secret c k random now secret self).0 ≡ record self {
      secrets = HashMap.insert v secret self.secrets;
      current_secret_version = some v;
      last_secret_rotation = some now;
    } =
      rw (rotate_secret, private, own, some_member, wrap) refl in
    let applied =
      apply_delta-rotated c k random now secret self signs owner sound checked members in
    (
      rotated c k random now secret self signs owner sound checked members,
      rw (rotate_secret, private, own, some_member, wrap) refl,
      ap get_secret after
          ∙ rw (get_secret, HashMap.get-insert v v secret self.secrets, ==_refl v) refl,
      rw applied refl,
      rw applied refl,
      (λ id.
          rw applied
            (contains-rotated c k random now secret self signs owner sound checked members id)),
    )
