-- ===== src/Time.antt =====
-- The UTC instants of a replay: src/time/ and the two parsers of timestamps that use it.
mod Calendar
mod Defs
mod Rule
mod Fields
mod Digits
pub mod Valid
pub mod Texts
pub mod Epoch
unfoldable pub use Calendar.*
unfoldable pub use Defs.*
