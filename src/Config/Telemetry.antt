-- ===== src/Config/Telemetry.antt =====
-- internal/config/config.go: the telemetry block, and the checks of its parts.
use optictrace.Prelude.{
  ℕ, zero, suc, ℤ, pos, negsuc, is_negative, Bool, true, false, not, ◌&&◌, ◌||◌, Option, none, some,
  List, [], ◌∷◌, Text, codes, beq, is_empty, every, ◌==◌, if◌then◌else◌, starts_with,
}
use optictrace.Config.Rules.{is_some, level_rank_known}
use optictrace.Spans.{SpansCfg}
use optictrace.Applog.{AppLogsCfg}
use optictrace.Scan.{Pattern}

pub record AppLogSource : Type 0 where
  pub type : Text
  pub path : Text
  pub format : Text
  pub span_pattern : Text

-- AppLogsCfg: what the governor reads of it, and the rest.
pub record AppLogsBlock : Type 0 where
  pub cfg : AppLogsCfg
  pub retention_max_age : ℤ
  pub sources : List AppLogSource

-- SpansCfg; the governor's natural number has lost the sign of MinDuration.
pub record SpansBlock : Type 0 where
  pub cfg : SpansCfg
  pub min_duration : ℤ

pub record StoreCfg : Type 0 where
  pub driver : Text
  pub dsn : Text
  pub queue_size : ℤ
  pub retention_max_rows : ℤ
  pub retention_max_age : Text
  pub analysis_max_rows : ℤ

pub record AdminAuth : Type 0 where
  pub token : Text
  pub token_env : Text
  pub allow_health : Option Bool

pub record AdminTls : Type 0 where
  pub cert_file : Text
  pub key_file : Text

pub record ExporterCfg : Type 0 where
  pub name : Text
  pub type : Text
  pub path : Text
  pub max_size_mb : ℤ
  pub url : Text
  pub command : List Text
  pub batch_size : ℤ
  pub flush_interval : Text
  pub queue_size : ℤ

pub record Billing : Type 0 where
  pub consumer_label : Text
  pub currency : Text

pub record Telemetry : Type 0 where
  pub admin_listen : Text
  pub cors_origins : List Text
  pub max_label_values : Option ℤ
  pub store : StoreCfg
  pub exporters : List ExporterCfg
  pub billing : Option Billing
  pub app_logs : Option AppLogsBlock
  pub spans : Option SpansBlock
  pub auth : Option AdminAuth
  pub tls : Option AdminTls

pub data ConfigError : Type 0 where
  bad_version bad_upstream empty_address bad_address no_port bad_port unresolved_host
        bad_span_pattern bad_attr_bytes bad_min_duration bad_log_pattern bad_source_path
        bad_source_type bad_source_format bad_source_pattern bad_level bad_max_lines
        bad_message_bytes bad_retention logs_disabled open_wildcard bad_origin bad_dsn bad_driver
        no_token token_unset no_certificate missing_file negative_rows too_many_rows bad_max_age
        unnamed_exporter bad_exporter bad_flush_interval duplicate_exporter bad_detector
        duplicate_detector redacted_label redacted_criterion bad_rule :
      ConfigError

pub record Url : Type 0 where
  pub scheme : Text
  pub host : Text
  pub path : Text

-- What the checks take from outside: net/url, net, regexp (the groups of a pattern
-- and the pattern), time, the environment and the file
-- system, and the drivers and exporters that are linked in.
pub record Outside : Type 0 where
  pub parse_url : Text → Option Url
  pub split_host_port : Text → Option (Text × Text)
  pub is_port : Text → Bool
  pub is_ip : Text → Bool
  pub resolves : Text → Bool
  pub compile : Text → Option (ℕ × Pattern)
  pub parse_duration : Text → Option ℤ
  pub getenv : Text → Text
  pub exists : Text → Bool
  pub has_store : Text → Bool
  pub has_exporter : Text → Bool

-- The first check that does not pass.
abbrev pub Step : Type 0
Step = Bool × ConfigError

abbrev pub first_failed : List Step → Option ConfigError
first_failed [] = none
first_failed ((passes, e) ∷ steps) = if passes then first_failed steps else some e

abbrev pub and_then : Option ConfigError → Option ConfigError → Option ConfigError
and_then none later = later
and_then (some e) later = some e

abbrev pub first_in {ℓ} : {A : Type ℓ} → (A → Option ConfigError) → List A → Option ConfigError
first_in f [] = none
first_in f (a ∷ as') = and_then (f a) (first_in f as')

module _ (k : Outside) where
  abbrev pub is_absolute : Option Url → Bool
  is_absolute none = false
  is_absolute (some u) = not (is_empty u.scheme) && not (is_empty u.host)

  abbrev pub host_port_error : Option (Text × Text) → Option ConfigError
  host_port_error none = some bad_address
  host_port_error (some (host, port)) = first_failed (
      (not (is_empty port), no_port)
      ∷ (k.is_port port, bad_port)
      ∷ (is_empty host || k.is_ip host || k.resolves host, unresolved_host)
      ∷ [])

  -- validateHostPort
  unfoldable pub validate_host_port : Text → Option ConfigError
  validate_host_port addr =
      if is_empty addr then some empty_address else host_port_error (k.split_host_port addr)

  abbrev pub spans_error : Option SpansBlock → Option ConfigError
  spans_error none = none
  spans_error (some b) = first_failed (
      (every (λ p. is_some (k.compile p)) b.cfg.redact_patterns, bad_span_pattern)
      ∷ (not (is_negative b.cfg.max_attr_bytes), bad_attr_bytes)
      ∷ (not (is_negative b.min_duration), bad_min_duration)
      ∷ [])

  abbrev pub type_error : AppLogSource → Option ConfigError
  type_error s =
      if beq s.type (codes "stdout")
      then first_failed ((is_empty s.path, bad_source_path) ∷ [])
      else if beq s.type (codes "file")
      then first_failed ((not (is_empty s.path), bad_source_path) ∷ [])
      else some bad_source_type

  abbrev pub is_format : Text → Bool
  is_format f = is_empty f || beq f (codes "json") || beq f (codes "text")

  abbrev pub has_one_group : Option (ℕ × Pattern) → Bool
  has_one_group none = false
  has_one_group (some (n, p)) = n == 1

  -- AppLogSource.validate
  unfoldable pub source_error : AppLogSource → Option ConfigError
  source_error s = and_then (type_error s) (
      first_failed (
        (is_format s.format, bad_source_format)
        ∷ (is_empty s.span_pattern || has_one_group (k.compile s.span_pattern), bad_source_pattern)
        ∷ []))

  -- `n < -1`
  abbrev pub is_below_minus_one : ℤ → Bool
  is_below_minus_one (pos n) = false
  is_below_minus_one (negsuc zero) = false
  is_below_minus_one (negsuc (suc n)) = true

  -- AppLogsCfg.validate
  unfoldable pub app_logs_error : Option AppLogsBlock → Option ConfigError
  unfolding level_rank_known
  app_logs_error none = none
  app_logs_error (some b) =
      and_then
        (first_failed ((every (λ p. is_some (k.compile p)) b.cfg.patterns, bad_log_pattern) ∷ []))
        (and_then (first_in source_error b.sources) (
          first_failed (
            (is_empty b.cfg.level_min || is_some (level_rank_known b.cfg.level_min), bad_level)
            ∷ (not (is_below_minus_one b.cfg.max_lines_per_span), bad_max_lines)
            ∷ (not (is_negative b.cfg.max_message_bytes), bad_message_bytes)
            ∷ (not (is_negative b.retention_max_age), bad_retention)
            ∷ [])))

  -- AdminAuth.Resolve
  unfoldable pub resolve_token : Option AdminAuth → Text
  resolve_token none = []
  resolve_token (some a) = if is_empty a.token_env then a.token else k.getenv a.token_env

  abbrev pub origin_error : Text → Text → Option ConfigError
  origin_error token o =
      if beq o (codes "*")
      then first_failed ((not (is_empty token), open_wildcard) ∷ [])
      else (elim (k.parse_url o) [
        | none ↦ some bad_origin
        | some u ↦ first_failed ((is_absolute (some u) && is_empty u.path, bad_origin) ∷ [])
      ])

  unfoldable pub origins_error : Text → List Text → Option ConfigError
  origins_error token origins = first_in (origin_error token) origins

  -- The switch on the driver.
  unfoldable pub driver_error : StoreCfg → Option ConfigError
  unfolding starts_with beq
  driver_error s =
      if beq s.driver (codes "sqlite") || beq s.driver (codes "none")
      then none
      else if beq s.driver (codes "postgres")
      then first_failed (
          (
            starts_with (codes "postgres://") s.dsn || starts_with (codes "postgresql://") s.dsn,
            bad_dsn,
          )
          ∷ [])
      else if beq s.driver (codes "clickhouse")
      then first_failed ((starts_with (codes "clickhouse://") s.dsn, bad_dsn) ∷ [])
      else first_failed ((k.has_store s.driver, bad_driver) ∷ [])

  abbrev pub auth_error : Option AdminAuth → Option ConfigError
  auth_error none = none
  auth_error (some a) = first_failed (
      (not (is_empty a.token) || not (is_empty a.token_env), no_token)
      ∷ (is_empty a.token_env || not (is_empty (k.getenv a.token_env)), token_unset)
      ∷ [])

  abbrev pub tls_error : Option AdminTls → Option ConfigError
  tls_error none = none
  tls_error (some t) = first_failed (
      (not (is_empty t.cert_file) && not (is_empty t.key_file), no_certificate)
      ∷ (k.exists t.cert_file && k.exists t.key_file, missing_file)
      ∷ [])
