-- ===== src/Prelude.antt =====
-- The names that the other modules share: those of the libraries, and of the children below.
mod Tests
mod Lists
mod Orders
mod Strings
mod Parsing
pub mod Integers
mod Members
pub mod Floats
pub use Tests.*
pub use Lists.*
pub use Orders.*
pub use Strings.*
pub use Parsing.*
pub use Integers.*
pub use Members.*
pub use Prim.Native.Nat.{ℕ, zero, suc, ◌+◌, ◌-◌, ◌*◌, ◌/◌, ◌%◌, ◌^◌, ◌≤◌, ◌<◌, min, max}
pub use mathlib.Core.Path.{◌≡◌, refl, sym, ap, ap₂, subst, ◌∙◌}
pub use mathlib.Core.Logic.{◌≢◌, ◌↔◌, ◌⊎◌, inl, inr}
pub use mathlib.Core.Bool.{Bool, true, false, not, ◌&&◌, ◌||◌}
pub use mathlib.Core.Option.{Option, none, some}
pub use mathlib.Core.List.{List, [], ◌∷◌, ◌++◌, map, foldl, Mem, Nodup, Perm}
pub use native.Mathlib.Omega.{arith}
unfoldable pub use Orders.{insertion_sort}
unfoldable pub use Strings.{
  decimal, decimal_from, contains, to_lowercase, starts_with, strip_prefix, ends_with,
}
unfoldable pub use Parsing.{
  strip_suffix, rfind_tail, split_once, is_whitespace, trim_start, trim_end, trim, split_parts,
  split,
}
unfoldable pub use mathlib.Core.List.{flatten}
unfoldable pub use native.Mathlib.Decide.{ℕ_discrete}
