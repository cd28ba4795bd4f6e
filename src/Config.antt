-- ===== src/Config.antt =====
-- The configuration from the environment: src/config.ts.
mod Defs
mod App
pub mod Flags
pub mod Holds
pub mod Bounds
unfoldable pub use Defs.*
unfoldable pub use App.*
