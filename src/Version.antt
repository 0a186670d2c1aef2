-- ===== src/Version.antt =====
-- common/src/board_state/version.rs: the version of the state's format.
use free_talk.Shared.{ℕ, Option, none, Result, ok, reject, ltb}
use free_talk.Model.{Error, unknown_state_version}

abbrev pub current_state_version : ℕ
current_state_version = 1

unfoldable pub verify : ℕ → Result Error (Unit {0})
verify version =
    reject (ltb current_state_version version) (unknown_state_version version current_state_version)

unfoldable pub summarize : ℕ → ℕ
summarize version = version

unfoldable pub delta : ℕ → ℕ → Option (Unit {0})
delta version old = none

unfoldable pub apply_delta : ℕ → Option (Unit {0}) → Result Error ℕ
apply_delta version d = ok version
