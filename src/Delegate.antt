-- ===== src/Delegate.antt =====
-- The delegate (freetalk-delegate/src and common/src/chat_delegate.rs): it keeps values and signing
-- keys for web applications in the secret store of its host, and signs for them.
mod Messages
mod Host
mod Names
mod Handlers
pub mod Vault
mod NameLaws
mod Effects
mod Steps
mod Shows
pub mod Refines
mod Own
pub mod Isolation
pub mod Faults
mod Toy
mod Tests
