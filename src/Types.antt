-- ===== src/Types.antt =====
-- nimbusmesh_x/types.py: the tables, the request, the state of pools and clusters, and the values that
-- the control plane passes on.
mod Tables
mod Request
mod Pool
mod Cluster
mod Placement
pub mod RequestFacts
pub mod PoolFacts
unfoldable pub use Tables.*
unfoldable pub use Request.*
unfoldable pub use Pool.*
unfoldable pub use Cluster.*
unfoldable pub use Placement.*
