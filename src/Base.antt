-- ===== src/Base.antt =====
-- The names that all modules share: the libraries' names, passed on, Boolean tests, lists, text,
-- and the monad of a database transaction.
mod Tests
mod Lists
mod Predicates
mod Strings
mod Transaction
pub use Tests.*
pub use Lists.*
pub use Predicates.*
pub use Strings.{Text, chars, non_empty, text_eq_iff, text_eq_refl}
unfoldable pub use Strings.{
  is_space, lstrip, strip, has_content, text_eq, hex_digit, hex_digits, uuid_text,
}
pub use Transaction.*
pub use Prim.Native.Nat.{ℕ, zero, suc, ◌+◌, ◌-◌, ◌*◌, ◌/◌, ◌%◌, ◌^◌, ◌≤◌, ◌<◌}
pub use Prim.Native.String.{String, ◌++◌ as str_append}
pub use mathlib.Core.Path.{◌≡◌, refl, sym, ap, subst, ◌∙◌}
pub use mathlib.Core.Logic.{◌≢◌, ◌↔◌, ◌⊎◌, inl, inr}
pub use mathlib.Core.Bool.{Bool, true, false, not, ◌&&◌, ◌||◌}
pub use mathlib.Core.Option.{Option, none, some}
pub use mathlib.Core.List.{List, [], ◌∷◌, ◌++◌, map, Memᴰ}
pub use native.Mathlib.Omega.{arith}
pub use text.Mathlib.Text.{◌==◌ as str_eq}
pub use text.Mathlib.TextEquality.{eq_iff}
pub use text.Mathlib.TextPositions.{eq_refl}
