-- ===== src/Base.antt =====
-- Names that the modules share: the libraries', machine words, outcomes, lists measured by native
-- numbers, and the tables that stand for `std::unordered_map<uint64_t, V>`.
mod Tests
mod Lists
pub mod Table
pub mod Sorting
pub mod Bits
pub use Tests.*
pub use Lists.*
pub use Prim.Native.Nat.{ℕ, zero, suc, ◌+◌, ◌-◌, ◌*◌, ◌/◌, ◌%◌, ◌≤◌, ◌<◌, min, max}
pub use mathlib.Core.Path.{◌≡◌, refl, sym, ap, ◌∙◌}
pub use mathlib.Core.Logic.{◌≢◌, ◌↔◌, ◌⊎◌, inl, inr}
pub use mathlib.Core.Bool.{Bool, true, false, not, ◌&&◌, ◌||◌}
pub use mathlib.Core.Option.{Option, none, some}
pub use mathlib.Core.List.{map-append, List, [], ◌∷◌, ◌++◌, map}
pub use native.Mathlib.Omega.{arith}
