-- ===== src/Cache.antt =====
-- cache_directory/directory.py, `KVCacheDirectory`.
mod Entry
mod Lookups
mod Observe
pub mod Facts
pub mod Score
pub mod Bounded
pub mod Redis
pub mod Total
unfoldable pub use Entry.*
unfoldable pub use Lookups.*
unfoldable pub use Observe.*
