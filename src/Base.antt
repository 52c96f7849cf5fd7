-- ===== src/Base.antt =====
-- Names that every module shares: the libraries', passed on, Boolean tests on numbers, and the
-- table operations that stand for the SQL statements of the source.
mod Tests
mod Rows
mod RowLaws
mod Results
mod Keys
mod WriteBack
pub use Tests.*
pub use Rows.*
pub use RowLaws.*
pub use Results.*
pub use Keys.*
pub use WriteBack.*
pub use Prim.Native.Nat.{ℕ, zero, suc, ◌+◌, ◌-◌, ◌*◌, ◌%◌, ◌/◌, ◌^◌, ◌≤◌, ◌<◌, min}
pub use Prim.Native.String.{String}
pub use mathlib.Core.Path.{◌≡◌, refl, sym, ap, ◌∙◌, transport}
pub use mathlib.Core.Logic.{◌≢◌, ◌⊎◌, inl, inr}
pub use mathlib.Core.Bool.{Bool, true, false, not, ◌&&◌, ◌||◌}
pub use mathlib.Core.Option.{Option, none, some}
pub use mathlib.Core.List.{List, [], ◌∷◌, ◌++◌, map}
pub use native.Mathlib.Omega.{arith}
