-- ===== src/Discovery.antt =====
-- Discovery of the candidates of the source: src/discovery.
mod Dedup
pub mod Unique
mod Report
mod Extract
mod Candidates
mod Page
mod Pages
pub mod Rows
pub mod Warnings
pub mod Passes
pub mod Outcome
pub mod Links
unfoldable pub use Dedup.*
unfoldable pub use Report.*
unfoldable pub use Extract.*
unfoldable pub use Candidates.*
unfoldable pub use Page.*
unfoldable pub use Pages.*
