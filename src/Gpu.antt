-- ===== src/Gpu.antt =====
-- topology/gpu_topology_parser.py: the matrices of a snapshot from its devices and relations, and what
-- is read off them. Splitting the text of `nvidia-smi topo -m` is not modelled.
mod Snapshot
pub mod Costs
unfoldable pub use Snapshot.*
