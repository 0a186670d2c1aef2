-- ===== src/Configuration/Tests.antt =====
-- Examples for common/src/board_state/configuration.rs.
use free_talk.Shared.{ℕ, ◌≡◌, ◌<◌, refl, arith, some, ok, nat_eq, list_eq}
use free_talk.Model.{is_public, declared_len}
use free_talk.Examples.{toy, parameters, signed_settings}
use free_talk.Configuration.{verify_signature, apply_delta}
use free_talk.Configuration.Accept.{IsSuccessor}

successor :
    (v : ℕ) → 1 < v → IsSuccessor toy parameters (signed_settings 1 2 2) (signed_settings v 2 2)
unfolding verify_signature declared_len is_public
successor v h = ground arith

-- A first version is accepted over nothing older, and refused over itself.
accepts_newer :
    apply_delta toy (signed_settings 1 2 2) parameters (some (signed_settings 2 3 3))
    ≡ ok (signed_settings 2 3 3)
unfolding apply_delta declared_len is_public
accepts_newer = refl
