-- ===== src/ContractCheck.antt =====
-- The probe of the source's contract: src/contract-check/contract-check.ts.
mod Defs
pub mod Verdict
unfoldable pub use Defs.*
