-- ===== src/Client.antt =====
-- The client that reads pages of the source: src/discovery/source-client.ts, with its errors and its
-- wiring of the retries.
mod Errors
mod Terminal
mod Fetch
pub mod Reports
pub mod Loaded
unfoldable pub use Errors.*
unfoldable pub use Terminal.*
unfoldable pub use Fetch.*
