-- ===== src/Types.antt =====
-- The data that the parts hand to one another (src/types).
mod Discovery
mod Replay
mod Staging
mod Run
pub use Discovery.*
pub use Replay.*
pub use Staging.*
pub use Run.*
