-- ===== src/Base.antt =====
-- The names that the models share: the libraries' passed on, tests on numbers, lists measured by
-- native numbers, byte strings and Rust's `Result`.
mod Tests
mod Lists
mod Results
mod Text
mod Words
mod Equality
mod Sorting
mod Strings
mod Keeping
mod Order
pub use Tests.*
pub use Lists.*
pub use Results.*
unfoldable pub use Text.*
pub use Words.*
pub use Equality.*
pub use Sorting.*
pub use Strings.*
pub use Keeping.*
pub use Order.*
pub use Prim.Native.Nat.{ℕ, zero, suc, ◌+◌, ◌-◌, ◌*◌, ◌/◌, ◌%◌, ◌^◌, ◌≤◌, ◌<◌, min, max}
pub use mathlib.Core.Path.{◌≡◌, refl, sym, ap, ap₂, ◌∙◌}
pub use mathlib.Core.Logic.{◌≢◌, ◌↔◌, ◌⊎◌, inl, inr}
pub use mathlib.Core.Bool.{Bool, true, false, not, ◌&&◌, ◌||◌}
pub use mathlib.Core.Option.{Option, none, some}
pub use mathlib.Core.List.{List, [], ◌∷◌, ◌++◌, map}
pub use native.Mathlib.Omega.{arith}
