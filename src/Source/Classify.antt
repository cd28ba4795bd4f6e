-- ===== src/Source/Classify.antt =====
-- src/source/classify-failure.ts: the classifier of failed reads.
mod Defs
pub mod Kinds
unfoldable pub use Defs.*
