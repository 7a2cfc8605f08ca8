-- ===== src/Config/Rules.antt =====
-- internal/config/config.go: one rule of optic.yaml, and its validation at load time.
use optictrace.Prelude.{
  ℕ, suc, ℤ, is_negative, Bool, true, false, not, ◌||◌, Option, none, some, List, [], ◌∷◌, Text,
  codes, contains, is_empty, every, map, ◌==◌, if◌then◌else◌, starts_with, to_upper, to_lower,
  trim_space,
}
use optictrace.Policy.{CaptureField, other}
use optictrace.Config.{Compiled, Parsed, ok, err, parse_label_source, is_json_path, json_prefix}

pub record Match : Type 0 where
  pub path : Text
  pub methods : List Text
  pub graphql_operation : Text
  pub headers : List (Text × Text)
  pub query : List (Text × Text)
  pub body : List (Text × Text)

pub record RedactCfg : Type 0 where
  pub headers : List Text
  pub json_fields : List Text
  pub query_params : List Text

pub record RuleLogs : Type 0 where
  pub level_min : Text
  pub max_lines_per_span : ℤ
  pub patterns : List Text
  pub fields : List Text
  pub drop : Bool

pub record Rule (F : Type 0) : Type 0 where
  pub name : Text
  pub match : Match
  pub restrict : List CaptureField
  pub redact : Option RedactCfg
  pub labels : List (Text × Text)
  pub sample : Option F
  pub keep_errors : Option Bool
  pub keep_slower_than : Text
  pub meter : List (Text × Text)
  pub logs : Option RuleLogs

pub data RuleError : Type 0 where
  path_required path_slash unknown_method unknown_field bad_json_field bad_label bad_body_regex
        bad_body_key bad_header_regex bad_query_regex bad_sample bad_level bad_max_lines
        bad_log_regex bad_meter bad_duration duration_not_positive :
      RuleError

-- What validation takes from outside: regexp.Compile as a test, and with its groups; the range test
-- of `sample`; and time.ParseDuration, a duration that is not above zero read as zero.
pub record Checks (F : Type 0) : Type 0 where
  pub compiles : Text → Bool
  pub compile_group : Text → Option Compiled
  pub in_unit_range : F → Bool
  pub parse_duration : Text → Option ℕ

abbrev pub valid_methods : List Text
valid_methods =
    codes "GET"
    ∷ codes "POST"
    ∷ codes "PUT"
    ∷ codes "PATCH"
    ∷ codes "DELETE"
    ∷ codes "HEAD"
    ∷ codes "OPTIONS"
    ∷ codes "TRACE"
    ∷ codes "CONNECT"
    ∷ []

abbrev pub is_known_field : CaptureField → Bool
is_known_field (other s) = false
is_known_field _ = true

abbrev pub level_names : List (List Text)
level_names =
    (codes "trace" ∷ [])
    ∷ (codes "debug" ∷ [])
    ∷ (codes "info" ∷ codes "information" ∷ codes "notice" ∷ [])
    ∷ (codes "warn" ∷ codes "warning" ∷ [])
    ∷ (codes "error" ∷ codes "err" ∷ [])
    ∷ (codes "fatal" ∷ codes "critical" ∷ codes "crit" ∷ codes "panic" ∷ [])
    ∷ []

abbrev pub rank_from : List (List Text) → ℕ → Text → Option ℕ
rank_from [] n level = none
rank_from (names ∷ rest) n level =
    if contains names level then some n else rank_from rest (suc n) level

-- LevelRankKnown; `none` is -1.
unfoldable pub level_rank_known : Text → Option ℕ
unfolding contains to_lower trim_space
level_rank_known level = rank_from level_names 0 (to_lower (trim_space level))

abbrev pub is_some {ℓ} : {A : Type ℓ} → Option A → Bool
is_some none = false
is_some (some a) = true

abbrev pub is_ok : Parsed → Bool
is_ok (ok ls) = true
is_ok (err e) = false

-- The checks of `validate`, each with the error that it returns, in the order of the code.
abbrev pub Step : Type 0
Step = Bool × RuleError

abbrev pub first_error : List Step → Option RuleError
first_error [] = none
first_error ((passes, e) ∷ steps) = if passes then first_error steps else some e

module _ {F : Type 0} (k : Checks F) where
  abbrev pub json_fields_valid : Option RedactCfg → Bool
  json_fields_valid none = true
  json_fields_valid (some r) = every is_json_path r.json_fields

  abbrev pub labels_valid : List (Text × Text) → Bool
  labels_valid labels = every (λ e. is_ok (parse_label_source k.compile_group e.1)) labels

  abbrev pub sample_valid : Option F → Bool
  sample_valid none = true
  sample_valid (some s) = k.in_unit_range s

  -- Each body criterion: its regexp first, then its key.
  abbrev pub body_error : List (Text × Text) → Option RuleError
  body_error [] = none
  body_error ((name, pat) ∷ m) =
      if k.compiles pat
      then (if starts_with json_prefix name then body_error m else some bad_body_key)
      else some bad_body_regex

  abbrev pub logs_error : Option RuleLogs → Option RuleError
  logs_error none = none
  logs_error (some l) = first_error (
      (is_empty l.level_min || is_some (level_rank_known l.level_min), bad_level)
      ∷ (not (is_negative l.max_lines_per_span), bad_max_lines)
      ∷ (every k.compiles l.patterns, bad_log_regex)
      ∷ [])

  abbrev pub duration_error : Text → Option ℕ → Option RuleError
  duration_error text none = some bad_duration
  duration_error text (some d) = if d == 0 then some duration_not_positive else none

  abbrev pub slower_error : Text → Option RuleError
  slower_error text = if is_empty text then none else duration_error text (k.parse_duration text)

  abbrev pub or_error : Option RuleError → Option RuleError → Option RuleError
  or_error none later = later
  or_error (some e) later = some e

  -- Rule.validate, without the change that it makes to the methods.
  unfoldable pub validate : Rule F → Option RuleError
  validate r =
      or_error
        (first_error (
          (not (is_empty r.match.path), path_required)
          ∷ (starts_with (codes "/") r.match.path, path_slash)
          ∷ (every (λ m. contains valid_methods (to_upper m)) r.match.methods, unknown_method)
          ∷ (every is_known_field r.restrict, unknown_field)
          ∷ (json_fields_valid r.redact, bad_json_field)
          ∷ (labels_valid r.labels, bad_label)
          ∷ []))
        (or_error (body_error r.match.body) (
          or_error
            (first_error (
              (every (λ e. k.compiles e.1) r.match.headers, bad_header_regex)
              ∷ (every (λ e. k.compiles e.1) r.match.query, bad_query_regex)
              ∷ (sample_valid r.sample, bad_sample)
              ∷ []))
            (or_error (logs_error r.logs) (
              or_error (if every (λ e. is_json_path e.1) r.meter then none else some bad_meter)
                (slower_error r.keep_slower_than)))))

  -- `r.Match.Methods[i] = upper`
  unfoldable pub normalize : Rule F → Rule F
  unfolding to_upper
  normalize r = record r { match = record r.match { methods = map to_upper r.match.methods } }
