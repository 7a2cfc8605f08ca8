-- ===== src/Config/Accepted.antt =====
-- internal/config/config.go, Validate: what a configuration has that is not refused.
use optictrace.Prelude.{
  Bool, true, false, not, ◌&&◌, Option, none, some, List, [], ◌∷◌, Text, codes, contains, is_empty,
  every, All, contains-append, beq_iff, ◌≡◌, refl, arith,
}
use optictrace.Label.{LabelSource, needs_body}
use optictrace.Config.{ok, parse_label_source}
use optictrace.Config.Rules.{Rule, Checks, validate}
use optictrace.Config.Telemetry.{
  Outside, ConfigError, ExporterCfg, first_failed, and_then, first_in, resolve_token,
}
use optictrace.Config.Validate.{
  Config, rule_error, label_error, criterion_error, redacted_json_paths, json_fields_of, label_path,
  exporter_error, exporters_error, has_app_logs, is_present,
}

-- A chain of checks that finds nothing.
pub chain_none : (a b : Option ConfigError) → and_then a b ≡ none → (a ≡ none) × (b ≡ none)
chain_none none b h = (refl, h)
chain_none (some e) b h = absurd (ground (arith, h))

pub first_in-All :
    {A : Type 0} (f : A → Option ConfigError) (xs : List A)
    → first_in f xs ≡ none
    → All (λ x. f x ≡ none) xs
first_in-All f [] h = tt
first_in-All f (x ∷ xs) h =
    let (a, b) = chain_none (f x) (first_in f xs) h in (a, first_in-All f xs b)

pub step_none : (b : Bool) (e : ConfigError) → first_failed ((b, e) ∷ []) ≡ none → b ≡ true
step_none true e h = refl
step_none false e h = absurd (ground (arith, h))

abbrev pub are_distinct : List Text → Bool
are_distinct [] = true
are_distinct (n ∷ ns) = not (contains ns n) && are_distinct ns

abbrev pub names : List ExporterCfg → List Text
names [] = []
names (e ∷ es) = e.name ∷ names es

abbrev are_fresh : List Text → List Text → Bool
are_fresh seen ns = every (λ n. not (contains seen n)) ns

fresh_cons :
    (n : Text) (seen ns : List Text)
    → are_fresh (n ∷ seen) ns ≡ true
    → (contains ns n ≡ false) × (are_fresh seen ns ≡ true)
unfolding contains
fresh_cons n seen [] h = (refl, refl)
fresh_cons n seen (m ∷ ns) h =
    let (a, b) = fresh_cons n seen ns (ground (arith, h)) in
    (ground (arith, h, a, beq_iff n m, beq_iff m n), ground (arith, h, b))

module _ (k : Outside) where
  pub exporters_error-distinct :
      (seen : List Text) (es : List ExporterCfg)
      → exporters_error k seen es ≡ none
      → (are_distinct (names es) ≡ true) × (are_fresh seen (names es) ≡ true)
  unfolding exporters_error
  exporters_error-distinct seen [] h = (refl, refl)
  exporters_error-distinct seen (e ∷ es) h =
      let (a, rest) = chain_none (exporter_error k e) _ h in
      let (b, later) = chain_none _ (exporters_error k (e.name ∷ seen) es) rest in
      let unseen = step_none (not (contains seen e.name)) _ b in
      let (d, fresh) = exporters_error-distinct (e.name ∷ seen) es later in
      let (apart, f) = fresh_cons e.name seen (names es) fresh in
      (ground (arith, apart, d), ground (arith, unseen, f))

  module _ {F : Type 0} (c : Checks F) where
    unredacted :
        (rules : List (Rule F)) (p : Text)
        → contains (redacted_json_paths k c rules) p ≡ false
        → All (λ s. contains (json_fields_of k c s.redact) p ≡ false) rules
    unfolding redacted_json_paths
    unredacted [] p h = tt
    unredacted (r ∷ rules) p h =
        let both =
          contains-append (json_fields_of k c r.redact) (redacted_json_paths k c rules) p in
        (ground (arith, h, both), unredacted rules p (ground (arith, h, both)))

    -- What an accepted configuration promises to the engine and the sinks.
    pub record IsSound (cfg : Config F) : Type 0 where
      pub rules_valid : All (λ r. validate c r ≡ none) cfg.rules
      pub labels_unredacted :
          All
            (λ r.
              All
                (λ e.
                  (ls : LabelSource)
                  → parse_label_source c.compile_group e.1 ≡ ok ls
                  → needs_body ls ≡ true
                  → All
                      (λ s. contains (json_fields_of k c s.redact) (label_path k c ls) ≡ false)
                      cfg.rules)
                r.labels)
            cfg.rules
      pub criteria_unredacted :
          All
            (λ r.
              All
                (λ e. All (λ s. contains (json_fields_of k c s.redact) e.0 ≡ false) cfg.rules)
                r.match.body)
            cfg.rules
      pub logs_enabled :
          All
            (λ r. is_present k r.logs ≡ true → has_app_logs k cfg.telemetry.app_logs ≡ true)
            cfg.rules
      pub exporters_distinct : are_distinct (names cfg.telemetry.exporters) ≡ true
      pub wildcard_guarded :
          contains cfg.telemetry.cors_origins (codes "*") ≡ true
          → is_empty (resolve_token k cfg.telemetry.auth) ≡ false

    pub rule_error-valid : (r : Rule F) → rule_error k c r ≡ none → validate c r ≡ none
    rule_error-valid r h = ground (arith, h)

    pub label-unredacted :
        (rules : List (Rule F)) (e : Text × Text) (ls : LabelSource)
        → label_error k c (redacted_json_paths k c rules) e ≡ none
        → parse_label_source c.compile_group e.1 ≡ ok ls
        → needs_body ls ≡ true
        → All (λ s. contains (json_fields_of k c s.redact) (label_path k c ls) ≡ false) rules
    label-unredacted rules (key, src) ls h p b =
        unredacted rules (label_path k c ls) (ground (arith, h, p, b))

    pub criterion-unredacted :
        (rules : List (Rule F)) (e : Text × Text)
        → criterion_error k c (redacted_json_paths k c rules) e ≡ none
        → All (λ s. contains (json_fields_of k c s.redact) e.0 ≡ false) rules
    criterion-unredacted rules (jp, pat) h = unredacted rules jp (ground (arith, h))
