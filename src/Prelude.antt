-- ===== src/Prelude.antt =====
-- The names that the modules of the development share: the libraries' names, passed on, and the
-- helpers of the modules below. It is about no file of the program.
mod Tests
mod Lists
pub mod Texts
pub mod Unicode
pub mod Keyset
pub mod Tables
pub mod Decimal
pub mod Orders
pub mod Ints
pub mod Ratios
pub use Tests.*
pub use Lists.*
pub use Prim.Native.Nat.{ℕ, zero, suc, ◌+◌, ◌-◌, ◌*◌, ◌/◌, ◌%◌, ◌^◌, ◌≤◌, ◌<◌, min, max}
pub use Prim.Native.String.{String}
pub use mathlib.Core.Path.{◌≡◌, refl, sym, ap, ◌∙◌, fun_ext}
pub use mathlib.Core.Logic.{◌≢◌, ◌↔◌, ◌⊎◌, inl, inr}
pub use mathlib.Core.Bool.{Bool, true, false, not, ◌&&◌, ◌||◌}
pub use mathlib.Core.Option.{Option, none, some}
pub use mathlib.Core.List.{List, [], ◌∷◌, ◌++◌, map}
pub use native.Mathlib.Omega.{arith}
