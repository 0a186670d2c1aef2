-- ===== src/Identity.antt =====
-- common/src/board_state/identity.rs: a member's identity as a text that another client imports.
mod Text
mod Export
mod TextLaws
pub mod RoundTrip
pub mod Consistent
pub mod Padding
mod Tests
