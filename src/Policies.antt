-- ===== src/Policies.antt =====
-- policies/: the routing policies. A policy is a data type with a constructor for each class, which
-- holds the state that the class keeps; `choose` returns the policy with its state after the call.
mod Choice
mod Kinds
pub mod Optimal
pub mod Members
pub mod Fair
unfoldable pub use Choice.*
unfoldable pub use Kinds.*
