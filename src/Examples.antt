-- ===== src/Examples.antt =====
-- Concrete inputs of the parts, on which the theorems are applied and the definitions run.
mod Source
mod Keys
mod Store
mod Objects
mod Staging
mod Page
mod Run
mod Watch
mod Discovery
mod Dates
mod Reads
mod Listing
mod Bytes
mod Config
