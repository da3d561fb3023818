-- ===== src/Common.antt =====
-- The names that every other module shares: those of the libraries, passed on, Boolean tests and
-- lists over the native numbers, decidable equality as an instance, and Go's results.
pub mod Tests
pub mod Lists
pub mod Dict
pub mod GoString
pub mod Results
pub mod Scan
pub mod Decimal
pub mod Sort
pub mod Int
pub mod Float
pub use Tests.*
pub use Lists.*
pub use Results.*
pub use Prim.Native.Nat.{ℕ, zero, suc, ◌+◌, ◌-◌, ◌*◌, ◌/◌, ◌%◌, ◌^◌, ◌≤◌, ◌<◌}
pub use mathlib.Core.Path.{◌≡◌, refl, sym, ap, ◌∙◌}
pub use mathlib.Core.Logic.{◌≢◌, ◌↔◌, ◌⊎◌, inl, inr}
pub use mathlib.Core.Bool.{Bool, true, false, not, ◌&&◌, ◌||◌}
pub use mathlib.Core.Option.{Option, none, some}
pub use mathlib.Core.List.{List, [], ◌∷◌, ◌++◌, map}
pub use native.Mathlib.Omega.{arith}
