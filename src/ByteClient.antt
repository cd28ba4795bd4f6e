-- ===== src/ByteClient.antt =====
-- The client that reads the bytes of a replay: src/storage/replay-byte-client.ts, with its errors and
-- its wiring of the retries.
mod Errors
mod Fetch
pub mod Reports
unfoldable pub use Errors.*
unfoldable pub use Fetch.*
