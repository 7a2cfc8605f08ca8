-- ===== src/Config/Defaults.antt =====
-- internal/config/config.go: the defaults of the telemetry block, and Parse once the text is decoded.
-- A float constant of the source is given by its digits and the number of its decimals.
use optictrace.Prelude.{
  ℕ, zero, suc, ℤ, pos, negsuc, Bool, true, ◌&&◌, Option, none, some, List, [], ◌∷◌, Text, codes,
  beq, is_empty, map, if◌then◌else◌, ◌≡◌, refl, arith, ◌∙◌, ap, subst,
}
use optictrace.Engine.New.{default_capture_limit_bytes}
use optictrace.Config.Rules.{Checks}
use optictrace.Config.Telemetry.{ExporterCfg, Telemetry, StoreCfg, Billing, AdminAuth, Outside}
use optictrace.Config.Validate.{
  Config, Service, Validated, accepted, settled, decided, validate_config, config_error, or_value,
  with_defaults, is_duration,
}
use optictrace.Config.Sound.{decided-accepted}
use optictrace.Config.Stable.{config_error-settled, settled_idem}

abbrev pub or_text : Text → Text → Text
or_text default t = if is_empty t then default else t

abbrev pub or_rows : ℤ → ℤ
or_rows (pos zero) = pos 100000
or_rows n = n

abbrev pub or_cap : Option ℤ → Option ℤ
or_cap none = some (pos 500)
or_cap (some n) = some n

-- `if t.Store.DSN == "" && t.Store.Driver == "sqlite"`
abbrev pub or_dsn : Text → Text → Text
or_dsn driver dsn =
    if is_empty dsn && beq driver (codes "sqlite") then codes "optictrace.db" else dsn

abbrev pub default_store : StoreCfg → StoreCfg
default_store s =
    let driver = or_text (codes "sqlite") s.driver in
    record s {
      driver = driver;
      dsn = or_dsn driver s.dsn;
      queue_size = or_value 4096 s.queue_size;
      retention_max_rows = or_rows s.retention_max_rows;
    }

abbrev pub default_billing : Option Billing → Option Billing
default_billing none = none
default_billing (some b) = some (record {
  consumer_label = or_text (codes "tenant") b.consumer_label;
  currency = or_text (codes "USD") b.currency;
})

-- applyTelemetryDefaults
unfoldable pub apply_telemetry_defaults : Telemetry → Telemetry
apply_telemetry_defaults t = record t {
  admin_listen = or_text (codes "127.0.0.1:9095") t.admin_listen;
  store = default_store t.store;
  billing = default_billing t.billing;
  max_label_values = or_cap t.max_label_values;
}

-- `if cfg.Defaults.CaptureLimitBytes == 0`
abbrev pub or_limit : ℤ → ℤ
or_limit (pos zero) = pos default_capture_limit_bytes
or_limit n = n

module _ {F : Type 0} (decimal : ℕ → ℕ → F) where
  abbrev pub default_buckets : List F
  default_buckets =
      decimal 1 3
      ∷ decimal 25 4
      ∷ decimal 5 3
      ∷ decimal 1 2
      ∷ decimal 25 3
      ∷ decimal 5 2
      ∷ decimal 1 1
      ∷ decimal 25 2
      ∷ decimal 5 1
      ∷ decimal 1 0
      ∷ decimal 25 1
      ∷ decimal 5 0
      ∷ decimal 10 0
      ∷ []

  abbrev pub or_buckets : List F → List F
  or_buckets [] = default_buckets
  or_buckets (b ∷ bs) = b ∷ bs

  unfoldable pub apply_defaults : Config F → Config F
  unfolding apply_telemetry_defaults
  apply_defaults cfg = record cfg {
    defaults = record cfg.defaults {
      capture_limit_bytes = or_limit cfg.defaults.capture_limit_bytes;
    };
    telemetry = apply_telemetry_defaults cfg.telemetry;
    buckets = or_buckets cfg.buckets;
  }

module _ (k : Outside) {F : Type 0} (c : Checks F) (decimal : ℕ → ℕ → F) where
  unfoldable pub parse_decoded : Config F → Validated F
  parse_decoded cfg = validate_config k c (apply_defaults decimal cfg)

-- RequireProxyAddrs
pub data AddressError : Type 0 where
  no_listen no_upstream : AddressError

unfoldable pub require_proxy_addrs : Service → Option AddressError
require_proxy_addrs s =
    if is_empty s.listen
    then some no_listen
    else if is_empty s.upstream
    then some no_upstream
    else none

abbrev pub open_unless : Option Bool → Bool
open_unless none = true
open_unless (some b) = b

-- HealthOpen
unfoldable pub health_open : Option AdminAuth → Bool
health_open none = true
health_open (some a) = open_unless a.allow_health

-- LabelValueCap
unfoldable pub label_value_cap : Option ℤ → ℤ
label_value_cap none = pos 500
label_value_cap (some (pos n)) = pos n
label_value_cap (some (negsuc n)) = pos 0

or_text_idem : (d t : Text) (c : ℕ) → or_text (c ∷ d) (or_text (c ∷ d) t) ≡ or_text (c ∷ d) t
or_text_idem d [] c = refl
or_text_idem d (x ∷ t) c = refl

or_value_idem : (d : ℕ) (n : ℤ) → or_value (suc d) (or_value (suc d) n) ≡ or_value (suc d) n
or_value_idem d n = ground arith

or_rows_idem : (n : ℤ) → or_rows (or_rows n) ≡ or_rows n
or_rows_idem (pos zero) = refl
or_rows_idem (pos (suc n)) = refl
or_rows_idem (negsuc n) = refl

or_cap_idem : (n : Option ℤ) → or_cap (or_cap n) ≡ or_cap n
or_cap_idem none = refl
or_cap_idem (some n) = refl

or_dsn_idem : (driver dsn : Text) → or_dsn driver (or_dsn driver dsn) ≡ or_dsn driver dsn
or_dsn_idem driver dsn = ground arith

or_limit_idem : (n : ℤ) → or_limit (or_limit n) ≡ or_limit n
or_limit_idem (pos zero) = refl
or_limit_idem (pos (suc n)) = refl
or_limit_idem (negsuc n) = refl

or_buckets_idem :
    {F : Type 0} (decimal : ℕ → ℕ → F) (bs : List F)
    → or_buckets decimal (or_buckets decimal bs) ≡ or_buckets decimal bs
or_buckets_idem decimal [] = refl
or_buckets_idem decimal (b ∷ bs) = refl

default_billing_idem :
    (b : Option Billing) → default_billing (default_billing b) ≡ default_billing b
default_billing_idem none = refl
default_billing_idem (some b) =
    rw (or_text_idem _ b.consumer_label _, or_text_idem _ b.currency _) refl

default_store_idem : (s : StoreCfg) → default_store (default_store s) ≡ default_store s
default_store_idem s =
    let d = or_text (codes "sqlite") s.driver in
    let driver : or_text (codes "sqlite") d ≡ d = or_text_idem _ s.driver _ in
    let dsn : or_dsn (or_text (codes "sqlite") d) (or_dsn d s.dsn) ≡ or_dsn d s.dsn =
      ap (λ (x : Text). or_dsn x (or_dsn d s.dsn)) driver ∙ or_dsn_idem d s.dsn in
    λ i. record s {
      driver = driver i;
      dsn = dsn i;
      queue_size = or_value_idem 4095 s.queue_size i;
      retention_max_rows = or_rows_idem s.retention_max_rows i;
    }

telemetry_defaults_idem :
    (t : Telemetry) (es : List ExporterCfg)
    → apply_telemetry_defaults (record (apply_telemetry_defaults t) { exporters = es })
      ≡ record (apply_telemetry_defaults t) { exporters = es }
unfolding apply_telemetry_defaults
telemetry_defaults_idem t es = λ i. record t {
  admin_listen = or_text_idem (codes "27.0.0.1:9095") t.admin_listen b'1' i;
  store = default_store_idem t.store i;
  billing = default_billing_idem t.billing i;
  max_label_values = or_cap_idem t.max_label_values i;
  exporters = es;
}

module _ (k : Outside) (seconds : is_duration k (k.parse_duration (codes "3s")) ≡ true) where
  apply_defaults-settled :
      {F : Type 0} (c : Checks F) (decimal : ℕ → ℕ → F) (cfg : Config F)
      → apply_defaults decimal (settled k c (apply_defaults decimal cfg))
        ≡ settled k c (apply_defaults decimal cfg)
  unfolding apply_defaults
  apply_defaults-settled c decimal cfg =
      let d = settled k c (apply_defaults decimal cfg) in
      let es = map (with_defaults k) (apply_telemetry_defaults cfg.telemetry).exporters in
      λ i. record d {
        defaults = record cfg.defaults {
          capture_limit_bytes = or_limit_idem cfg.defaults.capture_limit_bytes i;
        };
        telemetry = telemetry_defaults_idem cfg.telemetry es i;
        buckets = or_buckets_idem decimal cfg.buckets i;
      }

  -- A configuration that parsing has accepted, with its defaults filled in (the capture limit, the
  -- telemetry block with its buckets, exporters and rules), is accepted again and comes back as it
  -- is, provided that `3s` is a duration.
  pub parse_decoded_idem :
      {F : Type 0} (c : Checks F) (decimal : ℕ → ℕ → F) (cfg out : Config F)
      → parse_decoded k c decimal cfg ≡ accepted out
      → parse_decoded k c decimal out ≡ accepted out
  unfolding parse_decoded validate_config
  parse_decoded_idem {F} c decimal cfg out h =
      let d = apply_defaults decimal cfg in
      let (none_found, same) = decided-accepted k c d out (config_error k c d) h in
      subst (λ (x : Config F). parse_decoded k c decimal x ≡ accepted x) same
        (ap (validate_config k c) (apply_defaults-settled c decimal cfg)
          ∙ ap (decided k c (settled k c d)) (config_error-settled k seconds c d none_found)
          ∙ ap accepted (settled_idem k seconds c d))
