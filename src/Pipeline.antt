-- ===== src/Pipeline.antt =====
-- data_pipeline: datasets from elsewhere, normalized to one form of row.
mod Rows
mod Normalizers
mod Conversations
mod Registry
pub mod Normalized
pub mod Limited
pub mod Replayed
unfoldable pub use Rows.*
unfoldable pub use Normalizers.*
unfoldable pub use Conversations.*
unfoldable pub use Registry.*
