-- ===== src/Base.antt =====
-- What the components share: tests, lists, machine words, blocks of memory.
mod Tests
mod Lists
mod Words
mod Bits
mod Memory
mod Texts
mod Marks
mod CString
mod Search
pub use Tests.*
pub use Lists.*
pub use Words.*
unfoldable pub use Bits.*
unfoldable pub use Memory.*
unfoldable pub use Texts.*
unfoldable pub use Marks.*
unfoldable pub use CString.*
unfoldable pub use Search.*
pub use Prim.Native.Nat.{ℕ, zero, suc, ◌+◌, ◌-◌, ◌*◌, ◌/◌, ◌%◌, ◌^◌, ◌≤◌, ◌<◌, min, bit_and, bit_or}
pub use mathlib.Core.Path.{◌≡◌, refl, sym, ap, ap₂, ◌∙◌}
pub use mathlib.Core.Logic.{◌≢◌, ◌↔◌, ◌⊎◌, inl, inr}
pub use mathlib.Core.Bool.{Bool, true, false, not, ◌&&◌, ◌||◌}
pub use mathlib.Core.Option.{Option, none, some}
pub use mathlib.Core.List.{List, [], ◌∷◌, ◌++◌}
pub use native.Mathlib.Omega.{arith}
