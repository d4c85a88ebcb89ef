-- ===== src/Base.antt =====
-- What every module shares: names of the libraries, passed on, and the program-independent parts of
-- the Python code (conditionals, lists, dictionaries, raised exceptions, comparison of texts).
mod Tests
mod Lists
mod Raise
mod Equality
pub mod Dict
pub mod Sort
pub mod Int
pub mod Text
pub mod Words
pub use Tests.*
pub use Lists.*
pub use Raise.*
pub use Equality.*
pub use Prim.Native.Nat.{ℕ, zero, suc, ◌+◌, ◌-◌, ◌*◌, ◌/◌, ◌%◌, ◌^◌, ◌≤◌, ◌<◌}
pub use Prim.Native.String.{String}
pub use mathlib.Core.Path.{◌≡◌, refl, sym, ap, ap₂, subst, ◌∙◌}
pub use mathlib.Core.Logic.{◌≢◌, ◌↔◌, ◌⊎◌, inl, inr}
pub use mathlib.Core.Bool.{Bool, true, false, not, ◌&&◌, ◌||◌}
pub use mathlib.Core.Option.{Option, none, some}
pub use mathlib.Core.List.{List, [], ◌∷◌, ◌++◌, map, foldl}
pub use native.Mathlib.Omega.{arith}
