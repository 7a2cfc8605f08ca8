-- ===== src/Extract.antt =====
-- internal/engine/redact.go: reading strings and numbers out of a JSON document along a path.
mod Tests
pub mod Found
pub mod Absent
pub mod Sums
use optictrace.Prelude.{
  Bool, true, false, ◌&&◌, Option, none, some, List, [], ◌∷◌, Text, codes, beq, if◌then◌else◌,
  is_empty,
}
use optictrace.Json.{
  Value, Items, Fields, null, bool, num, str, arr, obj, nil, cons, end, field, get_field,
}
use optictrace.Floats.{Floats}
use optictrace.Redact.{JsonPath, star, double_star}

abbrev pub first_of_two : Option Text → Option Text → Option Text
first_of_two (some s) later = some s
first_of_two none later = later

-- `*sum` and `*found`
abbrev pub Sum : Type 0 → Type 0
Sum F = F × Bool

module _ {F : Type 0} where
  -- The value at the end of a path.
  abbrev pub render : Floats F → Value F → Option Text
  render ops (str s) = some s
  render ops (num v) =
      some (if ops.is_whole v && ops.is_below_1e15 v then ops.format_int v else ops.format_float v)
  render ops (bool b) = some (if b then codes "true" else codes "false")
  render _ _ = none

  abbrev pub at_key : (Value F → Option Text) → Option (Value F) → Option Text
  at_key below none = none
  at_key below (some child) = below child

  -- `for _, child := range v { if s, ok := f(child); ok { return s, true } }`
  abbrev pub first_field : (Value F → Option Text) → Fields F → Option Text
  first_field f end = none
  first_field f (field k v fs) = first_of_two (f v) (first_field f fs)

  -- The switch of `FirstString` on a node, for a path `seg ∷ rest`; `below` is the call on `rest`.
  module _ (seg : Text) (is_last : Bool) (below : Value F → Option Text) where
    unfoldable mutual
      pub find_value : Value F → Option Text
      find_value (obj fs) =
          if beq seg double_star
          then first_of_two (if is_last then none else below (obj fs)) (find_in_fields fs)
          else if beq seg star
          then first_field below fs
          else at_key below (get_field seg fs)
      find_value (arr vs) = find_in_items vs
      find_value _ = none

      pub find_in_items : Items F → Option Text
      find_in_items nil = none
      find_in_items (cons v vs) = first_of_two (find_value v) (find_in_items vs)

      pub find_in_fields : Fields F → Option Text
      find_in_fields end = none
      find_in_fields (field k v fs) = first_of_two (find_value v) (find_in_fields fs)

  unfoldable pub first_string : Floats F → JsonPath → Value F → Option Text
  unfolding find_value
  first_string ops [] node = render ops node
  first_string ops (seg ∷ rest) node = find_value seg (is_empty rest) (first_string ops rest) node

  abbrev pub add_number : Floats F → Value F → Sum F → Sum F
  add_number ops (num n) (sum, found) = (ops.add sum n, true)
  add_number _ _ acc = acc

  abbrev pub sum_field : (Value F → Sum F → Sum F) → Fields F → Sum F → Sum F
  sum_field f end acc = acc
  sum_field f (field k v fs) acc = sum_field f fs (f v acc)

  abbrev pub sum_at_key : (Value F → Sum F → Sum F) → Option (Value F) → Sum F → Sum F
  sum_at_key below none acc = acc
  sum_at_key below (some child) acc = below child acc

  module _ (seg : Text) (is_last : Bool) (below : Value F → Sum F → Sum F) where
    unfoldable mutual
      pub add_value : Value F → Sum F → Sum F
      add_value (obj fs) acc =
          if beq seg double_star
          then add_in_fields fs (if is_last then acc else below (obj fs) acc)
          else if beq seg star
          then sum_field below fs acc
          else sum_at_key below (get_field seg fs) acc
      add_value (arr vs) acc = add_in_items vs acc
      add_value _ acc = acc

      pub add_in_items : Items F → Sum F → Sum F
      add_in_items nil acc = acc
      add_in_items (cons v vs) acc = add_in_items vs (add_value v acc)

      pub add_in_fields : Fields F → Sum F → Sum F
      add_in_fields end acc = acc
      add_in_fields (field k v fs) acc = add_in_fields fs (add_value v acc)

  unfoldable pub sum_numeric : Floats F → JsonPath → Value F → Sum F → Sum F
  unfolding add_value
  sum_numeric ops [] node acc = add_number ops node acc
  sum_numeric ops (seg ∷ rest) node acc =
      add_value seg (is_empty rest) (sum_numeric ops rest) node acc
