-- ===== src/Base.antt =====
-- The names that every part shares: the libraries', passed on, and those of the children, which hold
-- Boolean tests, lists, C's `int` and byte strings.
pub mod Tests
pub mod Lists
pub mod Int
pub mod Bytes
pub use Tests.*
pub use Lists.*
pub use Int.*
pub use Bytes.{Text, codes, text_eq_iff, text_eq_refl, lacks-append}
unfoldable pub use Bytes.{text_eq, lacks}
pub use Prim.Native.Nat.{ℕ, zero, suc, ◌+◌, ◌-◌, ◌*◌, ◌/◌, ◌%◌, ◌^◌, ◌≤◌, ◌<◌, min, max}
pub use mathlib.Core.Path.{◌≡◌, refl, sym, ap, ◌∙◌, subst}
pub use mathlib.Core.Logic.{◌≢◌, ◌↔◌, ◌⊎◌, inl, inr}
pub use mathlib.Core.Bool.{Bool, true, false, ◌&&◌, ◌||◌, not}
pub use mathlib.Core.Option.{Option, none, some}
pub use mathlib.Core.List.{List, [], ◌∷◌, ◌++◌, map}
pub use native.Mathlib.Omega.{arith}
