-- ===== src/Reports.antt =====
-- What the engine writes while it runs: the logs, the CSV files and the rows of the database. A file is
-- its lines, and a line is the value that is dumped to it.
mod Lines
mod Payloads
mod Logs
mod Exports
mod Database
pub mod Appended
unfoldable pub use Lines.*
unfoldable pub use Payloads.*
unfoldable pub use Logs.*
unfoldable pub use Exports.*
unfoldable pub use Database.*
