-- ===== src/Message.antt =====
-- common/src/board_state/message.rs, and the parts of content.rs that it uses.
pub mod Body
pub mod Actions
pub mod Apply
pub mod Forged
pub mod ApplyLaws
pub mod Sealed
pub mod ActionLaws
pub mod Clean
mod Tests
