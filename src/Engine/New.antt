-- ===== src/Engine/New.antt =====
-- internal/engine/engine.go: `New`, which compiles a validated configuration into an engine.
use optictrace.Prelude.{
  zero, suc, ℤ, pos, negsuc, ℕ, Option, none, some, List, [], ◌∷◌, Text, map, insert, is_empty,
  if◌then◌else◌, to_lower, split_by, trim_prefix, ◌≢◌, All, arith,
}
use optictrace.Redact.{JsonPath}
use optictrace.Label.{LabelSource}
use optictrace.Config.{ok, err, parse_label_source, split_json_path, dot, json_prefix, Compiled}
use optictrace.Config.Rules.{RedactCfg, Rule}
use optictrace.Glob.{split_path}
use optictrace.Engine.{Regexp, CompiledRule, Engine, Defaults}

abbrev pub default_capture_limit_bytes : ℕ
default_capture_limit_bytes = 65536

-- A limit that is not above zero is replaced.
abbrev limit_of : ℤ → ℤ
limit_of (pos zero) = pos default_capture_limit_bytes
limit_of (pos (suc n)) = pos (suc n)
limit_of (negsuc n) = pos default_capture_limit_bytes

-- What `New` takes from outside: regexp.Compile, with and without its group, the canonical form of
-- a header name, and time.ParseDuration.
pub record Tools : Type 0 where
  pub compile : Text → Option Regexp
  pub compile_group : Text → Option Compiled
  pub canonical_key : Text → Text
  pub parse_duration : Text → Option ℕ

-- `for name, pat := range m { if re, err := regexp.Compile(pat); err == nil { out[key(name)] = re } }`
abbrev pub compile_criteria :
    (Text → Option Regexp)
    → (Text → Text)
    → List (Text × Text)
    → List (Text × Regexp)
    → List (Text × Regexp)
compile_criteria compile key [] out = out
compile_criteria compile key ((name, pat) ∷ m) out =
    compile_criteria compile key m
      (elim (compile pat) [ none ↦ out | some re ↦ insert (key name) re out ])

abbrev pub compile_body_paths :
    (Text → Option Regexp) → List (Text × Text) → List (Text × JsonPath) → List (Text × JsonPath)
compile_body_paths compile [] out = out
compile_body_paths compile ((jp, pat) ∷ m) out =
    compile_body_paths compile m
      (elim (compile pat) [ none ↦ out | some re ↦ insert jp (split_json_path jp) out ])

abbrev pub compile_methods : List Text → Option (List Text)
compile_methods [] = none
compile_methods (m ∷ ms) = some (m ∷ ms)

abbrev pub redact_list {ℓ} : {A : Type ℓ} → (RedactCfg → List A) → Option RedactCfg → List A
redact_list f none = []
redact_list f (some r) = f r

-- A source that does not parse is left out.
abbrev pub compile_labels :
    (Text → Option Compiled)
    → List (Text × Text)
    → List (Text × LabelSource)
    → List (Text × LabelSource)
compile_labels compile [] out = out
compile_labels compile ((k, src) ∷ m) out =
    compile_labels compile m
      (elim (parse_label_source compile src) [ err e ↦ out | ok ls ↦ insert k ls out ])

abbrev pub compile_meters : List (Text × Text) → List (Text × JsonPath)
compile_meters [] = []
compile_meters ((name, jp) ∷ m) = (name, split_json_path jp) ∷ compile_meters m

-- SlowerThan
abbrev pub duration_or_zero : Option ℕ → ℕ
duration_or_zero none = 0
duration_or_zero (some d) = d

module _ {F : Type 0} (t : Tools) where
  unfoldable pub slower_than : Rule F → ℕ
  slower_than r =
      if is_empty r.keep_slower_than
      then 0
      else duration_or_zero (t.parse_duration r.keep_slower_than)

  unfoldable pub compile_rule : Rule F → CompiledRule F
  unfolding slower_than split_path insert parse_label_source split_json_path to_lower
  compile_rule r = record {
    name = r.name;
    raw_pattern = r.match.path;
    gql_op = r.match.graphql_operation;
    sample = r.sample;
    keep_errors = r.keep_errors;
    keep_slower = slower_than r;
    path_segs = split_path r.match.path;
    methods = compile_methods r.match.methods;
    hdr_criteria = compile_criteria t.compile t.canonical_key r.match.headers [];
    qry_criteria = compile_criteria t.compile (λ name. name) r.match.query [];
    body_criteria = compile_criteria t.compile (λ jp. jp) r.match.body [];
    body_paths = compile_body_paths t.compile r.match.body [];
    restrict = r.restrict;
    redact_hdrs = redact_list (λ c. map t.canonical_key c.headers) r.redact;
    redact_query = redact_list (λ c. map to_lower c.query_params) r.redact;
    redact_paths = redact_list (λ c. map split_json_path c.json_fields) r.redact;
    labels = compile_labels t.compile_group r.labels [];
    meters = compile_meters r.meter;
  }

  unfoldable pub new : Defaults → List (Rule F) → Engine F
  unfolding compile_rule
  new d rules = record {
    defaults = record d { capture_limit_bytes = limit_of d.capture_limit_bytes };
    rules = map compile_rule rules;
  }

split_by-ne-nil : (sep : ℕ) (s : Text) → split_by sep s ≢ []
unfolding split_by
split_by-ne-nil sep [] h = cc
split_by-ne-nil sep (c ∷ s) h = ground (arith, split_by-ne-nil sep s)

-- A path that the configuration names never compiles to the empty path.
pub split_json_path-ne-nil : (p : Text) → split_json_path p ≢ []
unfolding split_json_path
split_json_path-ne-nil p = split_by-ne-nil dot (trim_prefix json_prefix p)

paths_nonempty : (ps : List Text) → All (λ path. path ≢ []) (map split_json_path ps)
paths_nonempty [] = tt
paths_nonempty (p ∷ ps) = (split_json_path-ne-nil p, paths_nonempty ps)

pub redact_paths_nonempty :
    {F : Type 0} (t : Tools) (r : Rule F) → All (λ path. path ≢ []) (compile_rule t r).redact_paths
unfolding compile_rule
redact_paths_nonempty t r = list_nonempty r.redact
  where
    list_nonempty :
        (o : Option RedactCfg)
        → All (λ path. path ≢ []) (redact_list (λ c. map split_json_path c.json_fields) o)
    list_nonempty none = tt
    list_nonempty (some c) = paths_nonempty c.json_fields
