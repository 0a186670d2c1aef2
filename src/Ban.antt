-- ===== src/Ban.antt =====
-- common/src/board_state/ban.rs: the bans, who may issue them, and how many are kept.
mod Good
pub mod Validate
pub mod Apply
pub mod ChainLaws
pub mod VerifyLaws
pub mod ApplyLaws
pub mod Forged
mod Tests
