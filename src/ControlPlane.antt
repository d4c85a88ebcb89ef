-- ===== src/ControlPlane.antt =====
-- control_plane/service.py, `NimbusMeshControlPlane`.
mod State
mod Candidates
mod Routing
pub mod Rejecting
pub mod Routed
pub mod Answered
pub mod Executed
pub mod Accounts
pub mod Total
pub mod Ready
pub mod Kept
pub mod Made
pub mod Refreshed
pub mod Served
unfoldable pub use State.*
unfoldable pub use Candidates.*
unfoldable pub use Routing.*
