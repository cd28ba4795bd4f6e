-- ===== src/Keys.antt =====
-- The keys of the objects that the fetcher writes: src/storage/object-key.ts,
-- src/checkpoint/object-key.ts and src/evidence/object-key.ts.
mod Defs
pub mod Safety
unfoldable pub use Defs.*
