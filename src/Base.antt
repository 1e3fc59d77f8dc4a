-- ===== src/Base.antt =====
-- The names that the other modules share: the libraries', passed on, and those of the children.
mod Tests
mod Lists
mod Strings
mod Int
mod Ink
pub mod Dict
pub use Tests.*
pub use Int.{ℤ, pos, negsuc, pos_part, neg_part, ltb_ℤ}
pub use Ink.{
  IsGiven, if_inked, is_ink, HasInk, is_empty-trim, ink_of_trim, trim_of_ink, is_empty_sound,
}
pub use Lists.*
pub use Strings.{Text, codes, is_empty}
unfoldable pub use Strings.{is_space, is_digit, is_upper, is_lower, is_alnum}
unfoldable pub use Strings.{trim_start, trim, text_eq, starts_with, ends_with, includes}
pub use Prim.Native.Nat.{ℕ, zero, suc, ◌+◌, ◌-◌, ◌*◌, ◌/◌, ◌%◌, ◌≤◌, ◌<◌, min, max}
pub use Prim.Native.String.{String}
pub use mathlib.Core.Path.{◌≡◌, refl, sym, ap, ◌∙◌}
pub use mathlib.Core.Logic.{◌≢◌, ◌↔◌, ◌⊎◌, inl, inr}
pub use mathlib.Core.Bool.{Bool, true, false, not, ◌&&◌, ◌||◌}
pub use mathlib.Core.Option.{Option, none, some}
pub use mathlib.Core.List.{List, [], ◌∷◌, ◌++◌, map, reverse}
pub use native.Mathlib.Omega.{arith}
