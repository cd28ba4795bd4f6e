-- ===== src/Staging.antt =====
-- Staging a replay: src/staging/.
mod Defs
pub mod Table
pub mod Repeat
mod Payload
pub mod Promotion
unfoldable pub use Defs.*
unfoldable pub use Payload.*
