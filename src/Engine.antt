-- ===== src/Engine.antt =====
-- internal/engine/engine.go: compiled rules, and the policy that they give to a request.
mod Tests
pub mod Matched
pub mod Capture
pub mod Body
pub mod New
pub mod Validated
pub mod Governed
pub mod Sanitize
pub mod Meters
pub mod Needs
pub mod Knowledge
use optictrace.Prelude.{
  ℤ, ℕ, Bool, true, false, not, ◌&&◌, ◌||◌, Option, none, some, List, [], ◌∷◌, ◌++◌, Text, contains,
  lookup, insert, is_empty, any, ltb, if◌then◌else◌,
}
use optictrace.Floats.{Floats}
use optictrace.Json.{Value}
use optictrace.Redact.{JsonPath}
use optictrace.Extract.{first_string}
use optictrace.Glob.{split_path, match_segments}
use optictrace.Label.{
  LabelSource, MultiMap, json, needs_response_body, first_value, header_get, Kind,
}
use optictrace.Policy.{CaptureField, request_body, response_body, headers, query, other, Policy}

-- A compiled regexp, as the test that it makes.
abbrev pub Regexp : Type 0
Regexp = Text → Bool

pub record CaptureFlags : Type 0 where
  pub request_body : Option Bool
  pub response_body : Option Bool
  pub headers : Option Bool
  pub query : Option Bool

pub record Defaults : Type 0 where
  pub capture : CaptureFlags
  pub capture_limit_bytes : ℤ

-- A nil map of methods admits every method.
pub record CompiledRule (F : Type 0) : Type 0 where
  pub name : Text
  pub raw_pattern : Text
  pub gql_op : Text
  pub sample : Option F
  pub keep_errors : Option Bool
  pub keep_slower : ℕ
  pub path_segs : List Text
  pub methods : Option (List Text)
  pub hdr_criteria : List (Text × Regexp)
  pub qry_criteria : List (Text × Regexp)
  pub body_criteria : List (Text × Regexp)
  pub body_paths : List (Text × JsonPath)
  pub restrict : List CaptureField
  pub redact_hdrs : List Text
  pub redact_query : List Text
  pub redact_paths : List JsonPath
  pub labels : List (Text × LabelSource)
  pub meters : List (Text × JsonPath)

pub record Engine (F : Type 0) : Type 0 where
  pub defaults : Defaults
  pub rules : List (CompiledRule F)

-- `none` is a nil map, and a body that has not been read.
pub record Attrs (F : Type 0) : Type 0 where
  pub method : Text
  pub path : Text
  pub headers : Option MultiMap
  pub query : Option MultiMap
  pub operation : Text
  pub body : Option (Value F)

-- config.Bool
abbrev pub flag : Option Bool → Bool
flag none = true
flag (some b) = b

-- `for k, v := range m { out[k] = v }`
abbrev pub insert_all :
    List (Text × LabelSource) → List (Text × LabelSource) → List (Text × LabelSource)
insert_all [] out = out
insert_all ((k, v) ∷ m) out = insert_all m (insert k v out)

abbrev pub path_or_empty : Option JsonPath → JsonPath
path_or_empty none = []
path_or_empty (some p) = p

abbrev pub paths_or_empty : Option (List JsonPath) → List JsonPath
paths_or_empty none = []
paths_or_empty (some ps) = ps

abbrev pub text_or_empty : Option Text → Text
text_or_empty none = []
text_or_empty (some s) = s

-- `p.Meters[name] = append(p.Meters[name], path)`
abbrev pub append_meters :
    List (Text × JsonPath) → List (Text × List JsonPath) → List (Text × List JsonPath)
append_meters [] out = out
append_meters ((name, path) ∷ m) out =
    append_meters m (insert name (paths_or_empty (lookup name out) ++ path ∷ []) out)

abbrev pub method_match : Option (List Text) → Text → Bool
method_match none method = true
method_match (some ms) method = contains ms method

-- Unknown operation: the rule cannot be decided yet, so it does not apply.
pub operation_match : Text → Text → Bool
operation_match gql_op operation =
    if is_empty gql_op
    then true
    else if is_empty operation
    then false
    else match_segments (split_path gql_op) (split_path operation)

module _ {F : Type 0} where
  abbrev pub restrict_field : CaptureField → Policy F → Policy F
  restrict_field request_body p = record p { capture_request_body = false }
  restrict_field response_body p = record p { capture_response_body = false }
  restrict_field headers p = record p { capture_headers = false }
  restrict_field query p = record p { capture_query = false }
  restrict_field (other s) p = p

  abbrev pub restrict_fields : List CaptureField → Policy F → Policy F
  restrict_fields [] p = p
  restrict_fields (f ∷ fs) p = restrict_fields fs (restrict_field f p)

  -- What a matching rule does to the policy.
  pub merge_rule : CompiledRule F → Policy F → Policy F
  merge_rule r p = restrict_fields r.restrict (record p {
    matched_rules = p.matched_rules ++ r.name ∷ [];
    route_pattern = r.raw_pattern;
    sample_rate = elim r.sample [ none ↦ p.sample_rate | some s ↦ s ];
    keep_errors = elim r.keep_errors [ none ↦ p.keep_errors | some b ↦ b ];
    keep_slower_than = if ltb 0 r.keep_slower then r.keep_slower else p.keep_slower_than;
    redact_headers = p.redact_headers ++ r.redact_hdrs;
    redact_query = p.redact_query ++ r.redact_query;
    redact_json_paths = p.redact_json_paths ++ r.redact_paths;
    labels = insert_all r.labels p.labels;
    meters = append_meters r.meters p.meters;
  })

module _ {F : Type 0} (ops : Floats F) where
  -- The policy before any rule.
  pub initial_policy : Defaults → Policy F
  initial_policy d = record {
    capture_request_body = flag d.capture.request_body;
    capture_response_body = flag d.capture.response_body;
    capture_headers = flag d.capture.headers;
    capture_query = flag d.capture.query;
    capture_limit_bytes = d.capture_limit_bytes;
    redact_headers = [];
    redact_query = [];
    redact_json_paths = [];
    labels = [];
    matched_rules = [];
    route_pattern = [];
    sample_rate = ops.one_value;
    keep_errors = false;
    keep_slower_than = 0;
    meters = [];
  }

module _ {F : Type 0} (ops : Floats F) (canonical_key : Text → Text) where
  -- `for name, re := range criteria`: every condition holds of the header, query value or body field.
  abbrev pub headers_match : List (Text × Regexp) → Option MultiMap → Bool
  headers_match [] h = true
  headers_match ((name, re) ∷ cs) none = false
  headers_match ((name, re) ∷ cs) (some h) =
      re (header_get canonical_key h name) && headers_match cs (some h)

  abbrev pub query_match : List (Text × Regexp) → Option MultiMap → Bool
  query_match [] q = true
  query_match ((name, re) ∷ cs) none = false
  query_match ((name, re) ∷ cs) (some q) =
      re (first_value (lookup name q)) && query_match cs (some q)

  abbrev pub body_match : List (Text × Regexp) → List (Text × JsonPath) → Option (Value F) → Bool
  body_match [] paths body = true
  body_match ((jp, re) ∷ cs) paths none = false
  body_match ((jp, re) ∷ cs) paths (some body) =
      re (text_or_empty (first_string ops (path_or_empty (lookup jp paths)) body))
      && body_match cs paths (some body)

  pub criteria_match : CompiledRule F → Attrs F → Bool
  criteria_match r a =
      headers_match r.hdr_criteria a.headers
      && query_match r.qry_criteria a.query
      && body_match r.body_criteria r.body_paths a.body

  -- The four guards of the loop, each of which continues with the next rule.
  pub applies : CompiledRule F → Attrs F → Bool
  unfolding criteria_match operation_match
  applies r a =
      method_match r.methods a.method
      && match_segments r.path_segs (split_path a.path)
      && criteria_match r a
      && operation_match r.gql_op a.operation

  pub evaluate_rules : List (CompiledRule F) → Attrs F → Policy F → Policy F
  unfolding applies merge_rule
  evaluate_rules [] a p = p
  evaluate_rules (r ∷ rs) a p = evaluate_rules rs a (if applies r a then merge_rule r p else p)

  -- EvaluateAttrs
  unfoldable pub evaluate_attrs : Engine F → Attrs F → Policy F
  unfolding evaluate_rules initial_policy
  evaluate_attrs e a = evaluate_rules e.rules a (initial_policy ops e.defaults)

  -- Evaluate: the request line alone.
  unfoldable pub evaluate : Engine F → Text → Text → Policy F
  unfolding evaluate_attrs
  evaluate e method url_path = evaluate_attrs e (record {
    method = method;
    path = url_path;
    headers = none;
    query = none;
    operation = [];
    body = none;
  })

  unfoldable pub evaluate_op : Engine F → Text → Text → Text → Policy F
  unfolding evaluate_attrs
  evaluate_op e method url_path operation = evaluate_attrs e (record {
    method = method;
    path = url_path;
    headers = none;
    query = none;
    operation = operation;
    body = none;
  })
