-- ===== src/Base.antt =====
-- The names that all modules share: the libraries', passed on, the Boolean tests, the lists
-- measured by native numbers, Python's exceptions and the monad of calls that raise.
mod Tests
mod Lists
mod Sets
mod Exceptions
mod Dicts
pub mod Int
pub use Tests.*
pub use Lists.*
pub use Sets.*
pub use Exceptions.*
pub use Dicts.*
pub use Prim.Native.Nat.{ℕ, zero, suc, ◌+◌, ◌-◌, ◌*◌, ◌≤◌, ◌<◌, min}
pub use Prim.Native.String.{String}
pub use mathlib.Core.Path.{◌≡◌, refl, sym, ap, ◌∙◌}
pub use mathlib.Core.Logic.{◌≢◌, ◌↔◌, ◌⊎◌, inl, inr}
pub use mathlib.Core.Bool.{Bool, true, false, not, ◌&&◌, ◌||◌}
pub use mathlib.Core.Option.{Option, none, some}
pub use mathlib.Core.List.{List, [], ◌∷◌, ◌++◌, map, append_assoc, append-nil}
pub use native.Mathlib.Omega.{arith}
