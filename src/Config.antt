-- ===== src/Config.antt =====
-- internal/config/config.go: the rules of a configuration, and the grammar of label sources.
pub mod Rules
pub mod Telemetry
pub mod Validate
pub mod Accepted
pub mod Sound
pub mod Stable
pub mod Defaults
mod Tests
use optictrace.Prelude.{
  ℕ, zero, suc, ◌+◌, ◌-◌, ◌*◌, Bool, true, false, not, ◌&&◌, ◌||◌, Option, none, some, List, [],
  ◌∷◌, Text, codes, beq, is_empty, length, leb, ltb, ◌==◌, if◌then◌else◌, split_by, trim_prefix,
  starts_with,
}
use optictrace.Redact.{JsonPath}
use optictrace.Label.{
  LabelSource, Kind, header, query, path, static, json, json_response, Extraction,
}

pub data SourceError : Type 0 where
  no_colon needs_name needs_value needs_path bad_segment unknown_kind static_regex bad_regex
        capture_groups :
      SourceError

pub data Parsed : Type 0 where
  ok : LabelSource → Parsed
  err : SourceError → Parsed

-- strings.Cut at one byte: what stands before it, and what stands after it if it is there.
unfoldable pub cut : ℕ → Text → Text × Option Text
cut sep [] = ([], none)
cut sep (c ∷ s) =
    let (before, after) = cut sep s in if c == sep then ([], some s) else (c ∷ before, after)

-- strconv.Atoi for a text that gives at least 1: a negative number, a malformed one and one beyond
-- int64 all give `none`, as the caller refuses all three.
abbrev pub digits_value : ℕ → Text → Option ℕ
digits_value acc [] = some acc
digits_value acc (c ∷ s) =
    if leb b'0' c && leb c b'9' then digits_value (acc * 10 + (c - b'0')) s else none

abbrev pub max_int : ℕ
max_int = 9223372036854775807

abbrev pub in_range : Option ℕ → Option ℕ
in_range none = none
in_range (some n) = if n == 0 || ltb max_int n then none else some n

abbrev pub unsigned : Text → Option ℕ
unsigned [] = none
unsigned (c ∷ s) = in_range (digits_value 0 (c ∷ s))

abbrev pub atoi_positive : Text → Option ℕ
atoi_positive [] = none
atoi_positive (c ∷ s) = if c == b'+' then unsigned s else unsigned (c ∷ s)

abbrev pub dot : ℕ
dot = b'.'

abbrev pub json_prefix : Text
json_prefix = codes "$."

-- strings.Split(strings.TrimPrefix(p, "$."), ".")
unfoldable pub split_json_path : Text → JsonPath
unfolding split_by trim_prefix
split_json_path p = split_by dot (trim_prefix json_prefix p)

-- `strings.HasPrefix(p, "$.") && len(p) > 2`
unfoldable pub is_json_path : Text → Bool
unfolding starts_with
is_json_path p = starts_with json_prefix p && ltb 2 (length p)

unfoldable pub kind_of : Text → Option Kind
unfolding beq
kind_of s =
    if beq s (codes "header")
    then some header
    else if beq s (codes "query")
    then some query
    else if beq s (codes "static")
    then some static
    else if beq s (codes "json")
    then some json
    else if beq s (codes "json_response")
    then some json_response
    else if beq s (codes "path")
    then some path
    else none

abbrev pub plain : Kind → Text → LabelSource
plain kind key = record { kind = kind; key = key; seg = 0; json_path = []; extract = none }

abbrev pub path_source : Text → Option ℕ → Parsed
path_source key none = err bad_segment
path_source key (some n) = ok (record (plain path key) { seg = n })

abbrev pub json_source : Kind → Text → Parsed
json_source kind key =
    if is_json_path key
    then ok (record (plain kind key) { json_path = split_json_path key })
    else err needs_path

abbrev pub source_of : Kind → Text → Parsed
source_of header key = if is_empty key then err needs_name else ok (plain header key)
source_of query key = if is_empty key then err needs_name else ok (plain query key)
source_of static key = if is_empty key then err needs_value else ok (plain static key)
source_of json key = json_source json key
source_of json_response key = json_source json_response key
source_of path key = path_source key (atoi_positive key)

-- A compiled regexp: how many groups it has, and what its first group extracts.
abbrev pub Compiled : Type 0
Compiled = ℕ × Extraction

abbrev pub with_compiled : LabelSource → Option Compiled → Parsed
with_compiled ls none = err bad_regex
with_compiled ls (some (groups, re)) =
    if groups == 1 then ok (record ls { extract = some re }) else err capture_groups

abbrev pub is_static : Kind → Bool
is_static static = true
is_static _ = false

module _ (compile : Text → Option Compiled) where
  abbrev pub with_pattern : Parsed → Option Text → Parsed
  with_pattern (err e) pattern = err e
  with_pattern (ok ls) none = ok ls
  with_pattern (ok ls) (some pattern) =
      if is_static ls.kind then err static_regex else with_compiled ls (compile pattern)

  abbrev pub keyed : Text → Option Text → Option Text → Parsed
  keyed kind none pattern = err no_colon
  keyed kind (some key) pattern = elim (kind_of kind) [
    | none ↦ err unknown_kind
    | some k ↦ with_pattern (source_of k key) pattern
  ]

  unfoldable pub parse_label_source : Text → Parsed
  unfolding cut kind_of is_json_path split_json_path
  parse_label_source src =
      let (expr, pattern) = cut b'|' src in
      let (kind, key) = cut b':' expr in keyed kind key pattern
