-- ===== src/Label.antt =====
-- internal/config/config.go: where the value of a custom label comes from.
use optictrace.Prelude.{
  ℕ, zero, suc, Bool, true, false, Option, none, some, List, [], ◌∷◌, Text, lookup, is_empty,
  if◌then◌else◌, split_by,
}
use optictrace.Floats.{Floats}
use optictrace.Json.{Value, null}
use optictrace.Redact.{JsonPath}
use optictrace.Extract.{first_string}
use optictrace.Glob.{slash, trim_slashes}

pub data Kind : Type 0 where
  header query path static json json_response : Kind

-- A regexp with one capture group: the group, if the text matches.
abbrev pub Extraction : Type 0
Extraction = Text → Option Text

pub record LabelSource : Type 0 where
  pub kind : Kind
  pub key : Text
  pub seg : ℕ
  pub json_path : JsonPath
  pub extract : Option Extraction

-- http.Header, url.Values: the values of a name, in order.
abbrev pub MultiMap : Type 0
MultiMap = List (Text × List Text)

abbrev pub first_value : Option (List Text) → Text
first_value none = []
first_value (some []) = []
first_value (some (v ∷ vs)) = v

abbrev pub is_json : Kind → Bool
is_json json = true
is_json json_response = true
is_json _ = false

unfoldable pub needs_body : LabelSource → Bool
needs_body s = is_json s.kind

abbrev pub is_json_response : Kind → Bool
is_json_response json_response = true
is_json_response _ = false

unfoldable pub needs_response_body : LabelSource → Bool
needs_response_body s = is_json_response s.kind

abbrev pub extracted : Option Text → Text
extracted none = []
extracted (some group) = group

abbrev pub apply_extraction : Option Extraction → Text → Text
apply_extraction none raw = raw
apply_extraction (some re) raw = if is_empty raw then raw else extracted (re raw)

unfoldable pub apply : LabelSource → Text → Text
apply s raw = apply_extraction s.extract raw

abbrev pub non_empty : List Text → List Text
non_empty [] = []
non_empty (seg ∷ segs) = if is_empty seg then non_empty segs else seg ∷ non_empty segs

unfoldable pub path_segments : Text → List Text
unfolding trim_slashes split_by
path_segments p = non_empty (split_by slash (trim_slashes p))

-- `if s.Seg >= 1 && s.Seg <= len(segs) { raw = segs[s.Seg-1] }`
abbrev pub segment_at : List Text → ℕ → Text
segment_at segs zero = []
segment_at [] (suc n) = []
segment_at (seg ∷ segs) (suc zero) = seg
segment_at (seg ∷ segs) (suc (suc n)) = segment_at segs (suc n)

-- What `Value` reads of a request.
pub record Request : Type 0 where
  pub headers : MultiMap
  pub query : MultiMap
  pub url_path : Text

-- textproto.CanonicalMIMEHeaderKey and url.Values stand in `canonical_key` and the maps.
module _ (canonical_key : Text → Text) where
  abbrev pub header_get : MultiMap → Text → Text
  header_get h name = first_value (lookup (canonical_key name) h)

  abbrev pub value_of_kind : Kind → LabelSource → Request → Text
  value_of_kind header s r = apply s (header_get r.headers s.key)
  value_of_kind query s r = apply s (first_value (lookup s.key r.query))
  value_of_kind path s r = apply s (segment_at (path_segments r.url_path) s.seg)
  value_of_kind static s r = s.key
  value_of_kind json s r = []
  value_of_kind json_response s r = []

  unfoldable pub value : LabelSource → Request → Text
  unfolding apply path_segments lookup
  value s r = value_of_kind s.kind s r

module _ {F : Type 0} (ops : Floats F) where
  abbrev pub is_null : Value F → Bool
  is_null null = true
  is_null _ = false

  abbrev pub apply_found : LabelSource → Option Text → Text
  apply_found s none = []
  apply_found s (some raw) = apply s raw

  unfoldable pub value_from_body : LabelSource → Value F → Text
  unfolding needs_body first_string apply
  value_from_body s doc =
      if needs_body s
      then (if is_null doc then [] else apply_found s (first_string ops s.json_path doc))
      else []
