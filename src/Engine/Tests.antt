-- ===== src/Engine/Tests.antt =====
-- Runs of the engine on a configuration with one rule.
use optictrace.Prelude.{
  ℕ, true, false, not, ◌&&◌, none, some, List, [], ◌∷◌, codes, any, contains, starts_with, to_upper,
  to_lower, ◌≡◌, ◌≢◌, refl, All, inl,
}
use optictrace.Json.{Value, depth, update_field}
use optictrace.Redact.{placeholder}
use optictrace.Redact.Addressed.{IsMaskedAt, shallow}
use optictrace.Glob.{split_path, match_segments}
use optictrace.Engine.Needs.{
  body_rule_paths, has_criteria_rules, has_graphql_rules, evaluate_attrs-body_rule_paths,
}
use optictrace.Label.{MultiMap}
use optictrace.Config.{is_json_path}
use optictrace.Config.Rules.{Rule, validate}
use optictrace.Policy.{Policy, CaptureField, headers}
use optictrace.Samples.{
  whole_numbers, same_key, password, document, one_field, one_field-RoundTrips, tools, defaults,
  login_rule, login,
}
use optictrace.Engine.{Engine, Attrs, evaluate_attrs}
use optictrace.Engine.New.{new}
use optictrace.Engine.Matched.{
  applicable, collected, last_value, threshold, evaluate_attrs_collects, evaluate_attrs_overrides,
}
use optictrace.Engine.Capture.{captures, default_flag, restricted, captures-evaluate_attrs}
use optictrace.Engine.Knowledge.{KnowsLess, evaluate_attrs-KnowsLess}
use optictrace.Engine.Body.{Codec, redact_json_body, redact_json_body_refused}
use optictrace.Engine.Validated.{checks_of}
use optictrace.Engine.Sanitize.{Urls, is_masked, sanitize_query, sanitize_query-SameUnmasked}
use optictrace.Engine.Governed.{redact_json_body-new, applying, policy}
use mathlib.Core.List.{Sublistᴰ}

abbrev rules : List (Rule ℕ)
rules = login_rule ∷ []

abbrev p : Policy ℕ
p = policy whole_numbers tools login one_field defaults rules

paths : p.redact_json_paths ≡ (password ∷ []) ∷ []
unfolding new evaluate_attrs contains match_segments
paths = refl

paths_nonempty : All (λ path. path ≢ []) p.redact_json_paths
paths_nonempty = rw paths ((λ h. cc), tt)

asks : p.redact_json_paths ≢ []
asks h = let h' : (password ∷ []) ∷ [] ≡ [] = rw paths at h in cc

stored : redact_json_body one_field p (codes "hunter2") ≡ (placeholder, true)
unfolding new evaluate_attrs redact_json_body contains match_segments depth update_field
stored = refl

redact_json_body-new_example :
    (doc : Value ℕ) × (one_field.unmarshal placeholder ≡ some doc)
    × All
        (λ r. All (λ path. IsMaskedAt path doc) (shallow r.redact_paths))
        (applying whole_numbers tools login one_field defaults rules)
redact_json_body-new_example =
    redact_json_body-new whole_numbers tools login one_field defaults rules (codes "hunter2")
      placeholder one_field-RoundTrips (λ h. cc) asks stored

abbrev nothing_decodes : Codec ℕ
nothing_decodes = record { valid = λ t. false; unmarshal = λ t. none; marshal = λ v. none }

refused : redact_json_body nothing_decodes p (codes "{") ≡ (codes "{", false)
unfolding new evaluate_attrs redact_json_body contains match_segments
refused = refl

redact_json_body_refused_example : codes "{" ≡ codes "{"
redact_json_body_refused_example =
    redact_json_body_refused nothing_decodes p (codes "{") (codes "{") refused

abbrev e : Engine ℕ
e = new tools defaults rules

evaluate_attrs_collects_example :
    let matching = applicable whole_numbers same_key login e.rules in
    let q = evaluate_attrs whole_numbers same_key e login in
    (q.matched_rules ≡ collected (λ r. r.name ∷ []) matching)
    × (q.redact_headers ≡ collected (λ r. r.redact_hdrs) matching)
    × (q.redact_query ≡ collected (λ r. r.redact_query) matching)
    × (q.redact_json_paths ≡ collected (λ r. r.redact_paths) matching)
evaluate_attrs_collects_example = evaluate_attrs_collects whole_numbers same_key login e

evaluate_attrs_overrides_example :
    let matching = applicable whole_numbers same_key login e.rules in
    let q = evaluate_attrs whole_numbers same_key e login in
    (q.route_pattern ≡ last_value (λ r. some r.raw_pattern) matching [])
    × (q.sample_rate ≡ last_value (λ r. r.sample) matching 1)
    × (q.keep_errors ≡ last_value (λ r. r.keep_errors) matching false)
    × (q.keep_slower_than ≡ last_value (threshold whole_numbers same_key login e) matching 0)
evaluate_attrs_overrides_example = evaluate_attrs_overrides whole_numbers same_key login e

captures-evaluate_attrs_example :
    captures headers (evaluate_attrs whole_numbers same_key e login) ≡ (
      default_flag headers e.defaults
      && not (restricted whole_numbers same_key login headers e.rules))
captures-evaluate_attrs_example = captures-evaluate_attrs whole_numbers same_key login e headers

-- The request of `login` with its body read.
abbrev login_read : Attrs ℕ
login_read = record login { body = some (document (codes "hunter2")) }

abbrev login-KnowsLess : KnowsLess login login_read
login-KnowsLess = record {
  same_method = refl;
  same_path = refl;
  fewer_headers = inl refl;
  less_query = inl refl;
  less_operation = inl refl;
  less_body = inl refl;
}

evaluate_attrs-KnowsLess_example :
    let u = evaluate_attrs whole_numbers same_key e login in
    let v = evaluate_attrs whole_numbers same_key e login_read in
    ((f : CaptureField) → captures f v ≡ true → captures f u ≡ true)
    × Sublistᴰ u.matched_rules v.matched_rules
    × Sublistᴰ u.redact_headers v.redact_headers
    × Sublistᴰ u.redact_query v.redact_query
    × Sublistᴰ u.redact_json_paths v.redact_json_paths
evaluate_attrs-KnowsLess_example =
    evaluate_attrs-KnowsLess whole_numbers same_key login login_read login-KnowsLess e

passes : validate (checks_of tools (λ n. true)) login_rule ≡ none
unfolding validate starts_with contains to_upper is_json_path
passes = refl

abbrev request_headers : MultiMap
request_headers =
    (codes "Authorization", codes "Basic Zm9v" ∷ [])
    ∷ (codes "Accept", codes "a" ∷ codes "b" ∷ [])
    ∷ []

-- Of a query string, its text as the value of the one parameter `token`.
abbrev urls : Urls
urls = record { parse_query = λ raw. some ((codes "token", raw ∷ []) ∷ []); query_escape = λ v. v }

token_masked : is_masked p urls (codes "token") ≡ true
unfolding new evaluate_attrs contains match_segments to_lower
token_masked = refl

sanitize_query-SameUnmasked_example :
    sanitize_query p urls (codes "abc") ≡ sanitize_query p urls (codes "xyz")
sanitize_query-SameUnmasked_example =
    sanitize_query-SameUnmasked p urls (codes "abc") (codes "xyz")
      ((codes "token", codes "abc" ∷ []) ∷ []) ((codes "token", codes "xyz" ∷ []) ∷ []) (λ h. cc)
      (λ h. cc) refl refl (refl, rw token_masked refl, tt)

no_body_rules :
    any (λ glob. match_segments glob (split_path login.path)) (body_rule_paths e) ≡ false
unfolding new body_rule_paths
no_body_rules = refl

evaluate_attrs-body_rule_paths_example :
    evaluate_attrs whole_numbers same_key e login_read
    ≡ evaluate_attrs whole_numbers same_key e login
evaluate_attrs-body_rule_paths_example =
    evaluate_attrs-body_rule_paths whole_numbers same_key e login
      (some (document (codes "hunter2"))) no_body_rules

no_criteria_rules : has_criteria_rules e ≡ false
unfolding new has_criteria_rules
no_criteria_rules = refl

abbrev login_with_headers : Attrs ℕ
login_with_headers = record login { headers = some request_headers }

no_graphql_rules : has_graphql_rules e ≡ false
unfolding new has_graphql_rules
no_graphql_rules = refl
