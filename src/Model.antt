-- ===== src/Model.antt =====
-- The data of the board's state (common/src/board_state.rs and the files of its fields), and the
-- external code that the state's operations call.
mod Privacy
mod Records
mod Content
mod Message
mod Secret
mod Settings
mod Signing
mod State
unfoldable pub use Privacy.*
unfoldable pub use Records.*
unfoldable pub use Content.*
unfoldable pub use Message.*
unfoldable pub use Secret.*
unfoldable pub use Settings.*
unfoldable pub use Signing.*
unfoldable pub use State.*
