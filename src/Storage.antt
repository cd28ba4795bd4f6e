-- ===== src/Storage.antt =====
-- Storing the bytes of a replay: src/storage/store-raw-replay.ts and src/storage/s3-raw-storage.ts.
mod Defs
pub mod Idempotence
pub mod Bytes
unfoldable pub use Defs.*
