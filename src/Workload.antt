-- ===== src/Workload.antt =====
-- workload_gen/generator.py, `WorkloadGenerator`.
mod Draws
mod Sampling
mod Requests
mod Traces
pub mod Arrivals
pub mod Counted
unfoldable pub use Draws.*
unfoldable pub use Sampling.*
unfoldable pub use Requests.*
unfoldable pub use Traces.*
