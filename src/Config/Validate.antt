-- ===== src/Config/Validate.antt =====
-- internal/config/config.go: the checks of a whole configuration, and the defaults it is given.
use optictrace.Prelude.{
  ℕ, zero, suc, ℤ, pos, negsuc, Bool, true, false, not, ◌&&◌, ◌||◌, Option, none, some, List, [],
  ◌∷◌, ◌++◌, Text, codes, beq, contains, is_empty, map, leb, ◌==◌, if◌then◌else◌, join_by,
}
use optictrace.Engine.{Defaults}
use optictrace.Label.{LabelSource, needs_body}
use optictrace.Config.{Parsed, ok, err, parse_label_source, dot, json_prefix}
use optictrace.Config.Rules.{Rule, RuleError, RedactCfg, Checks, validate, normalize}
use optictrace.Config.Telemetry.{
  Telemetry, ExporterCfg, AppLogsBlock, ConfigError, Outside, first_failed, and_then, first_in,
  is_absolute, validate_host_port, spans_error, app_logs_error, resolve_token, origins_error,
  driver_error, auth_error, tls_error, bad_version, bad_upstream, logs_disabled, negative_rows,
  too_many_rows, bad_max_age, unnamed_exporter, bad_exporter, bad_flush_interval,
  duplicate_exporter, bad_detector, duplicate_detector, redacted_label, redacted_criterion,
  bad_rule,
}
use optictrace.Scan.{Pattern, Built, built, refused, new_detector}

pub record DetectorCfg : Type 0 where
  pub kind : Text
  pub severity : Text
  pub why : Text
  pub pattern : Text
  pub verify : Text

pub record Service : Type 0 where
  pub name : Text
  pub listen : Text
  pub upstream : Text

-- `buckets` is telemetry.metrics.buckets.
pub record Config (F : Type 0) : Type 0 where
  pub version : ℕ
  pub service : Service
  pub defaults : Defaults
  pub telemetry : Telemetry
  pub buckets : List F
  pub detectors : List DetectorCfg
  pub rules : List (Rule F)

pub data Validated (F : Type 0) : Type 0 where
  accepted : Config F → Validated F
  invalid : ConfigError → Validated F

abbrev pub max_analysis_rows : ℕ
max_analysis_rows = 500000

abbrev pub second : Option (ℕ × Pattern) → Option Pattern
second none = none
second (some (n, p)) = some p

abbrev pub is_built : Built → Bool
is_built (built d) = true
is_built (refused e) = false

-- `n <= 0`
abbrev pub is_not_positive : ℤ → Bool
is_not_positive (pos zero) = true
is_not_positive (pos (suc n)) = false
is_not_positive (negsuc n) = true

abbrev pub or_value : ℕ → ℤ → ℤ
or_value default n = if is_not_positive n then pos default else n

module _ (k : Outside) where
  abbrev pub is_duration : Option ℤ → Bool
  is_duration none = false
  is_duration (some d) = true

  abbrev pub is_positive_duration : Option ℤ → Bool
  is_positive_duration none = false
  is_positive_duration (some d) = not (is_not_positive d)

  abbrev pub exporter_type_error : ExporterCfg → Option ConfigError
  exporter_type_error e =
      if beq e.type (codes "file")
      then first_failed ((not (is_empty e.path), bad_exporter) ∷ [])
      else if beq e.type (codes "webhook") || beq e.type (codes "otlp")
      then first_failed ((is_absolute k (k.parse_url e.url), bad_exporter) ∷ [])
      else if beq e.type (codes "command")
      then first_failed ((not (is_empty e.command), bad_exporter) ∷ [])
      else first_failed ((k.has_exporter e.type, bad_exporter) ∷ [])

  -- ExporterCfg.validate, as far as it refuses.
  unfoldable pub exporter_error : ExporterCfg → Option ConfigError
  exporter_error e = and_then (first_failed ((not (is_empty e.name), unnamed_exporter) ∷ [])) (
      and_then (exporter_type_error e) (
        first_failed (
          (
            is_empty e.flush_interval || is_duration (k.parse_duration e.flush_interval),
            bad_flush_interval,
          )
          ∷ [])))

  -- The defaults at its end.
  unfoldable pub with_defaults : ExporterCfg → ExporterCfg
  with_defaults e = record e {
    batch_size = or_value 50 e.batch_size;
    flush_interval = if is_empty e.flush_interval then codes "3s" else e.flush_interval;
    queue_size = or_value 1024 e.queue_size;
    max_size_mb = or_value 100 e.max_size_mb;
  }

  -- The exporters in turn, with the names seen so far.
  unfoldable pub exporters_error : List Text → List ExporterCfg → Option ConfigError
  unfolding exporter_error contains
  exporters_error seen [] = none
  exporters_error seen (e ∷ es) = and_then (exporter_error e) (
      and_then (first_failed ((not (contains seen e.name), duplicate_exporter) ∷ []))
        (exporters_error (e.name ∷ seen) es))

  abbrev pub detector_error : DetectorCfg → Option ConfigError
  detector_error d = first_failed (
      (
        is_built
            (new_detector (λ p. second (k.compile p)) d.kind d.severity d.why d.pattern d.verify),
        bad_detector,
      )
      ∷ [])

  unfoldable pub detectors_error : List Text → List DetectorCfg → Option ConfigError
  unfolding contains
  detectors_error seen [] = none
  detectors_error seen (d ∷ ds) = and_then (detector_error d) (
      and_then (first_failed ((not (contains seen d.kind), duplicate_detector) ∷ []))
        (detectors_error (d.kind ∷ seen) ds))

  abbrev pub rows_error : ℤ → Option ConfigError
  rows_error (negsuc n) = some negative_rows
  rows_error (pos n) = first_failed ((leb n max_analysis_rows, too_many_rows) ∷ [])

  abbrev pub age_error : Text → Option ConfigError
  age_error age =
      first_failed ((is_empty age || is_positive_duration (k.parse_duration age), bad_max_age) ∷ [])

  abbrev pub has_app_logs : Option AppLogsBlock → Bool
  has_app_logs none = false
  has_app_logs (some b) = b.cfg.enabled

  abbrev pub is_present {ℓ} : {A : Type ℓ} → Option A → Bool
  is_present none = false
  is_present (some a) = true

  module _ {F : Type 0} (c : Checks F) where
    abbrev pub json_fields_of : Option RedactCfg → List Text
    json_fields_of none = []
    json_fields_of (some r) = r.json_fields

    -- redactedJSONPaths, as the list of what the set holds.
    unfoldable pub redacted_json_paths : List (Rule F) → List Text
    redacted_json_paths [] = []
    redacted_json_paths (r ∷ rules) = json_fields_of r.redact ++ redacted_json_paths rules

    abbrev pub logs_block_error : Option AppLogsBlock → Rule F → Option ConfigError
    logs_block_error logs r =
        first_failed ((not (is_present r.logs) || has_app_logs logs, logs_disabled) ∷ [])

    -- `"$." + strings.Join(ls.JSONPath, ".")`
    abbrev pub label_path : LabelSource → Text
    label_path ls = json_prefix ++ join_by dot ls.json_path

    abbrev pub label_overlap : List Text → Parsed → Bool
    label_overlap redacted (err e) = false
    label_overlap redacted (ok ls) = needs_body ls && contains redacted (label_path ls)

    abbrev pub label_error : List Text → Text × Text → Option ConfigError
    label_error redacted (key, src) = first_failed (
        (not (label_overlap redacted (parse_label_source c.compile_group src)), redacted_label)
        ∷ [])

    abbrev pub criterion_error : List Text → Text × Text → Option ConfigError
    criterion_error redacted (jp, pat) =
        first_failed ((not (contains redacted jp), redacted_criterion) ∷ [])

    unfoldable pub overlap_error : List Text → Rule F → Option ConfigError
    overlap_error redacted r =
        and_then (first_in (label_error redacted) r.labels)
          (first_in (criterion_error redacted) r.match.body)

    abbrev pub reported : Option RuleError → Option ConfigError
    reported none = none
    reported (some e) = some bad_rule

    abbrev pub rule_error : Rule F → Option ConfigError
    rule_error r = reported (validate c r)

    abbrev pub listen_error : Text → Option ConfigError
    listen_error listen = if is_empty listen then none else validate_host_port k listen

    abbrev pub service_error : Service → Option ConfigError
    service_error s =
        and_then
          (first_failed
            ((is_empty s.upstream || is_absolute k (k.parse_url s.upstream), bad_upstream) ∷ []))
          (listen_error s.listen)

    abbrev pub telemetry_error : Telemetry → List (Rule F) → Option ConfigError
    telemetry_error t rules = and_then (validate_host_port k t.admin_listen) (
        and_then (spans_error k t.spans) (
          and_then (app_logs_error k t.app_logs) (
            and_then (first_in (logs_block_error t.app_logs) rules) (
              and_then (origins_error k (resolve_token k t.auth) t.cors_origins) (
                and_then (driver_error k t.store) (
                  and_then (auth_error k t.auth) (
                    and_then (tls_error k t.tls) (
                      and_then (rows_error t.store.analysis_max_rows) (
                        and_then (age_error t.store.retention_max_age)
                          (exporters_error [] t.exporters))))))))))

    -- The error of Validate, if any.
    unfoldable pub config_error : Config F → Option ConfigError
    unfolding exporters_error detectors_error overlap_error redacted_json_paths
    config_error cfg = and_then (first_failed ((cfg.version == 1, bad_version) ∷ [])) (
        and_then (service_error cfg.service) (
          and_then (telemetry_error cfg.telemetry cfg.rules) (
            and_then (detectors_error [] cfg.detectors) (
              and_then (first_in (overlap_error (redacted_json_paths cfg.rules)) cfg.rules)
                (first_in rule_error cfg.rules)))))

    abbrev pub settled : Config F → Config F
    settled cfg = record cfg {
      telemetry = record cfg.telemetry { exporters = map with_defaults cfg.telemetry.exporters };
      rules = map (normalize c) cfg.rules;
    }

    abbrev pub decided : Config F → Option ConfigError → Validated F
    decided cfg none = accepted (settled cfg)
    decided cfg (some e) = invalid e

    -- Validate: what it leaves behind where it does not refuse.
    unfoldable pub validate_config : Config F → Validated F
    unfolding with_defaults
    validate_config cfg = decided cfg (config_error cfg)
