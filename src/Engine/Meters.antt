-- ===== src/Engine/Meters.antt =====
-- internal/engine/redact.go: usage figures out of response bodies.
use optictrace.Prelude.{
  false, ◌||◌, List, [], ◌∷◌, Text, if◌then◌else◌, Option, none, some, is_empty,
}
use optictrace.Floats.{Floats}
use optictrace.Json.{Value}
use optictrace.Redact.{JsonPath}
use optictrace.Extract.{Sum, sum_numeric}
use optictrace.Policy.{Policy}
use optictrace.Engine.Body.{Codec}

module _ {F : Type 0} (ops : Floats F) where
  -- `for _, path := range paths { sumNumeric(doc, path, &sum, &found) }`
  abbrev pub sum_paths : List JsonPath → Value F → Sum F → Sum F
  sum_paths [] doc acc = acc
  sum_paths (path ∷ paths) doc acc = sum_paths paths doc (sum_numeric ops path doc acc)

  abbrev pub start : Sum F
  start = (ops.zero_value, false)

  abbrev pub meter_all : List (Text × List JsonPath) → Value F → List (Text × F)
  meter_all [] doc = []
  meter_all ((name, paths) ∷ ms) doc =
      let (sum, found) = sum_paths paths doc start in
      if found then (name, sum) ∷ meter_all ms doc else meter_all ms doc

  abbrev pub meter_decoded : List (Text × List JsonPath) → Option (Value F) → List (Text × F)
  meter_decoded ms none = []
  meter_decoded ms (some doc) = meter_all ms doc

  -- The empty list is the nil map.
  unfoldable pub extract_meters : Codec F → Policy F → Text → List (Text × F)
  unfolding sum_numeric
  extract_meters c p body =
      if is_empty p.meters || is_empty body then [] else meter_decoded p.meters (c.unmarshal body)
