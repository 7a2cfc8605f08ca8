-- ===== src/Config/Tests.antt =====
-- Runs of the checks of a configuration.
use optictrace.Prelude.{
  ℕ, pos, true, false, none, some, List, [], ◌∷◌, Text, codes, ◌≡◌, refl, to_upper,
}
use optictrace.Samples.{login_rule, defaults}
use optictrace.Config.{is_json_path}
use optictrace.Config.Rules.{Checks, validate}
use optictrace.Config.Telemetry.{
  validate_host_port, app_logs_error, origins_error, driver_error, Outside, ExporterCfg,
  duplicate_exporter,
}
use optictrace.Config.Validate.{Config, accepted, settled, validate_config, config_error}
use optictrace.Config.Accepted.{IsSound}
use optictrace.Config.Sound.{validate_config-IsSound}
use optictrace.Config.Defaults.{
  apply_telemetry_defaults, apply_defaults, parse_decoded, parse_decoded_idem,
}

-- Only host:port texts that begin with a colon split, and every text is a duration.
abbrev outside : Outside
outside = record {
  parse_url = λ t. none;
  split_host_port = λ t. some ([], t);
  is_port = λ t. true;
  is_ip = λ t. true;
  resolves = λ t. true;
  compile = λ t. none;
  parse_duration = λ t. some (pos 3);
  getenv = λ t. [];
  exists = λ t. false;
  has_store = λ t. false;
  has_exporter = λ t. false;
}

abbrev checks : Checks ℕ
checks = record {
  compiles = λ t. true;
  compile_group = λ t. none;
  in_unit_range = λ n. true;
  parse_duration = λ t. none;
}

abbrev exporter : Text → ExporterCfg
exporter name = record {
  name = name;
  type = codes "file";
  path = codes "out";
  max_size_mb = pos 0;
  url = [];
  command = [];
  batch_size = pos 0;
  flush_interval = [];
  queue_size = pos 0;
}

abbrev with_exporters : List ExporterCfg → Config ℕ
with_exporters es = record {
  version = 1;
  service = record { name = []; listen = []; upstream = [] };
  defaults = defaults;
  buckets = [];
  telemetry = record {
    admin_listen = 1 ∷ [];
    cors_origins = [];
    max_label_values = none;
    store = record {
      driver = codes "none";
      dsn = [];
      queue_size = pos 0;
      retention_max_rows = pos 0;
      retention_max_age = [];
      analysis_max_rows = pos 0;
    };
    exporters = es;
    billing = none;
    app_logs = none;
    spans = none;
    auth = none;
    tls = none;
  };
  detectors = [];
  rules = login_rule ∷ [];
}

abbrev one : Config ℕ
one = with_exporters (exporter (1 ∷ []) ∷ [])

twice :
    config_error outside checks (with_exporters (exporter (1 ∷ []) ∷ exporter (1 ∷ []) ∷ []))
    ≡ some duplicate_exporter
unfolding config_error validate_host_port app_logs_error origins_error driver_error
twice = refl

passes : validate_config outside checks one ≡ accepted (settled outside checks one)
unfolding validate_config config_error validate_host_port app_logs_error origins_error driver_error
    validate to_upper is_json_path
passes = refl

validate_config-IsSound_example :
    IsSound outside checks one × (settled outside checks one ≡ settled outside checks one)
validate_config-IsSound_example =
    validate_config-IsSound outside checks one (settled outside checks one) passes

-- The digits alone stand for a constant.
abbrev whole : ℕ → ℕ → ℕ
whole digits decimals = digits

abbrev complete : Config ℕ
complete = settled outside checks (apply_defaults whole one)

parses : parse_decoded outside checks whole one ≡ accepted complete
unfolding parse_decoded apply_defaults apply_telemetry_defaults validate_config config_error
    validate_host_port app_logs_error origins_error driver_error validate to_upper is_json_path
parses = refl

parse_decoded_idem_example : parse_decoded outside checks whole complete ≡ accepted complete
parse_decoded_idem_example = parse_decoded_idem outside refl checks whole one complete parses
