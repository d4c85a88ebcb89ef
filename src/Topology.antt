-- ===== src/Topology.antt =====
-- topology_service/graph.py, `TopologyService`.
mod Graph
mod Search
pub mod Walks
pub mod Fuel
pub mod Relaxed
pub mod Settled
pub mod Entered
pub mod Shortest
pub mod Built
pub mod Reached
unfoldable pub use Graph.*
unfoldable pub use Search.*
