-- ===== src/Run.antt =====
-- A run over the pages of the source (src/run).
pub mod Summary
pub mod Ingest
pub mod Once
pub mod Watch
