-- ===== src/Metrics.antt =====
-- nimbusmesh_x/metrics.py, `MetricsCollector`. The texts that it renders and writes are not modelled.
mod Statistics
mod Collector
pub mod Quantiles
unfoldable pub use Statistics.*
unfoldable pub use Collector.*
