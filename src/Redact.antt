-- ===== src/Redact.antt =====
-- internal/engine/redact.go: walking a JSON document along a dotted path.
mod Tests
pub mod Addressed
pub mod Reached
pub mod Masks
pub mod Stays
pub mod Complete
pub mod Idempotent
pub mod Trailing
use optictrace.Prelude.{
  ℕ, zero, suc, ◌+◌, Bool, true, false, not, ◌&&◌, Option, none, some, List, [], ◌∷◌, Text, codes,
  beq, length, if◌then◌else◌, is_empty,
}
use optictrace.Json.{
  Value, Items, Fields, null, bool, num, str, arr, obj, nil, cons, end, field, map_items,
  map_fields, update_field, get_field, depth,
}

abbrev pub placeholder : Text
placeholder = codes "[REDACTED]"

abbrev pub star : Text
star = codes "*"

abbrev pub double_star : Text
double_star = codes "**"

abbrev pub JsonPath : Type 0
JsonPath = List Text

module _ {F : Type 0} where
  abbrev pub fields_of : Value F → Fields F
  fields_of (obj fs) = fs
  fields_of _ = end

  -- What stands at an addressed position: the placeholder at the last segment, and above it the
  -- document that the remaining path rewrites.
  abbrev pub masked : Bool → (Value F → Value F) → Value F → Value F
  masked true f child = str placeholder
  masked false f child = f child

  -- A call on an object. The results of the recursive calls are parameters: `onward` for the
  -- same path and `below` for the rest of it.
  pub redact_object :
      Text → JsonPath → (Value F → Value F) → (Value F → Value F) → Fields F → Value F
  redact_object seg rest onward below fs =
      if beq seg double_star
      then obj (map_fields onward (if is_empty rest then fs else fields_of (below (obj fs))))
      else if beq seg star
      then obj (map_fields (masked (is_empty rest) below) fs)
      else obj (update_field seg (masked (is_empty rest) below) fs)

  -- Each call takes one from the fuel; `redact_path` gives enough for every document.
  pub redact_fuel : ℕ → JsonPath → Value F → Value F
  unfolding redact_object
  redact_fuel zero path node = node
  redact_fuel (suc n) [] node = node
  redact_fuel (suc n) (seg ∷ rest) (obj fs) =
      redact_object seg rest (redact_fuel n (seg ∷ rest)) (redact_fuel n rest) fs
  redact_fuel (suc n) (seg ∷ rest) (arr vs) = arr (map_items (redact_fuel n (seg ∷ rest)) vs)
  redact_fuel (suc n) (seg ∷ rest) node = node

  unfoldable pub redact_path : Value F → JsonPath → Value F
  unfolding redact_fuel
  redact_path node path = redact_fuel (depth node + length path) path node
