-- ===== src/Prelude.antt =====
-- The names that the other modules share: the libraries', passed on, and those of its children.
mod Tests
mod Lists
mod Strings
mod Sorts
pub use Tests.*
pub use Lists.*
unfoldable pub use Strings.{
  beq, contains, text_le, lookup, insert, starts_with, trim_prefix, split_by, join_by, trim_left,
  trim_right, trim, to_lower, to_upper, trim_space,
}
pub use Strings.{
  is_space, extend_first, Text, codes, beq_iff, beq_refl, lookup-insert, contains-append,
  trim-clean,
}
unfoldable pub use Sorts.{sort_texts, itoa}
pub use Sorts.{insert_text, length-insert_text, length-sort_texts, contains-sort_texts}
pub use Prim.Native.Nat.{ℕ, zero, suc, ◌+◌, ◌-◌, ◌*◌, ◌/◌, ◌%◌, ◌≤◌, ◌<◌, max, min}
pub use Prim.Native.String.{String}
pub use mathlib.Core.Path.{◌≡◌, refl, sym, ap, ◌∙◌, subst}
pub use mathlib.Core.Logic.{◌≢◌, ◌↔◌, ◌⊎◌, inl, inr}
pub use mathlib.Core.Bool.{Bool, true, false, not, ◌&&◌, ◌||◌}
pub use mathlib.Core.Option.{Option, none, some}
pub use mathlib.Core.List.{List, [], ◌∷◌, ◌++◌, map, append-nil, append_assoc, reverse}
pub use native.Mathlib.Omega.{arith}

-- Joined lists in one form, and arithmetic on their lengths.
pub ruleset joins = (append-nil, append_assoc)

pub ruleset lengths = (arith, length-append, length-take-le)
