-- ===== src/Lib.antt =====
-- FreeTalk: the shared state of a chat board, as replicas keep and exchange it.
--
-- A board's state (`ChatBoardStateV1`, common/src/board_state.rs) is a record of parts. Each part
-- verifies itself against the whole state, gives a summary of what it has, computes the delta that a
-- replica with a given summary lacks, and applies a delta. The order of the parts is that of the
-- record: configuration, administrators, bans, members, member info, secrets, messages, upgrade and
-- version; a clean-up follows. The code that calls the parts one after the other is generated by a
-- macro of another package and is not modelled.
--
-- Files, with the code they are about:
--   Shared         lists, hash maps and sets as lists of their entries, sorting, results of fallible code
--   Model          the records of all parts, signatures and identifiers (common/src/util.rs)
--   Configuration  common/src/board_state/configuration.rs
--   Admin          common/src/board_state/admin.rs
--   Ban            common/src/board_state/ban.rs
--   Member         common/src/board_state/member.rs
--   MemberInfo     common/src/board_state/member_info.rs
--   Secret         common/src/board_state/secret.rs
--   Message        common/src/board_state/message.rs and content.rs
--   Upgrade        common/src/board_state/upgrade.rs
--   Version        common/src/board_state/version.rs
--   Cleanup        `post_apply_cleanup` of common/src/board_state.rs
--   Identity       common/src/board_state/identity.rs: a member's identity as a text
--   CryptoValue    common/src/crypto_values.rs: keys and signatures as texts
--   Delegate       freetalk-delegate/src (handlers.rs, lib.rs, utils.rs, models.rs, context.rs) and
--                  common/src/chat_delegate.rs: values and signing keys that the host keeps
--   SyncInfo       ui/src/components/app/sync_info.rs: which boards a client subscribes to and sends
--   Ecies          ui/src/util/ecies.rs: secrets of a board for one member, and what is sealed with them
--   BoardData      ui/src/board_data.rs: what a client keeps of a board, and the rotation of its secret
--   Examples       a small signature scheme and boards, for the Tests of each part
-- In each, `verify`, `summarize`, `delta` and `apply_delta` are the functions of the same names. A
-- function that changes `self` returns the new state; `apply_delta` of Secret and MemberInfo may fail
-- with a part of the delta already in the state, so they return the state beside the result.
--
-- `Crypto` holds the hash, the serialisation and the signature scheme, and `Cbor` the codec of the
-- messages: they are parameters, for which the theorems assume only what they name (`SignsCorrectly`,
-- `ReadsBack`). Integers are natural numbers. What may overflow is written out: the cast of the limit of
-- bans to `isize` (`extra_bans`), whose width is a parameter, and the next version of a secret and the
-- declared length of what is sealed, which are `u32`. Error messages are constructors with
-- the values that the messages show.
--
-- Loops take fuel. The walks up the invitations have as many rounds as the map has entries and two
-- more, the clean-up one for each author and each member, and theorems show that this is enough. The
-- walk down (`get_downstream_members`) ends only where invitations make no circle, which is a theorem
-- with the fuel it needs; without that it has no bound.
--
-- The delegate is modelled as it is compiled for its host. `Delegate.Host.Host` is the secret store of
-- the host and `Formats` what the delegate writes and reads; `Delegate.Vault.Drawer` is what it promises
-- to one origin. A handler returns the store and a result, so that what an error leaves is in the model.
--
-- `Ecies.Ciphers` holds the curves, hashes and AES-GCM, and `Random` what an encryption draws.
-- `BoardData.Distribute` carries the secrets that a client makes through `apply_delta` of Secret.
--
-- Not modelled: the command line, the rest of the user interface, the contract's host interface, log
-- lines, display strings, default values and the generated code.
pub mod Shared
pub mod Model
pub mod Configuration
pub mod Upgrade
pub mod Version
pub mod Admin
pub mod Member
pub mod Ban
pub mod Cleanup
pub mod MemberInfo
pub mod Secret
pub mod Message
pub mod Delegate
pub mod Identity
pub mod CryptoValue
pub mod SyncInfo
pub mod Ecies
pub mod BoardData
pub mod Examples
