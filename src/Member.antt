-- ===== src/Member.antt =====
-- common/src/board_state/member.rs: the members, who invited them, and what a ban removes.
pub mod Chain
pub mod Downstream
pub mod Apply
pub mod ChainLaws
pub mod DownstreamLaws
pub mod DownstreamEnds
pub mod Removal
pub mod Verify
pub mod Keeps
pub mod ApplyLaws
mod Tests
