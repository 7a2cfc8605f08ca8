-- ===== src/Config/Sound.antt =====
-- internal/config/config.go, Validate: an accepted configuration, whatever it holds.
use optictrace.Prelude.{
  true, false, Option, none, some, List, [], ◌∷◌, Text, codes, contains, beq_iff, is_empty, All,
  All-imp, ◌≡◌, refl, arith, ap,
}
use optictrace.Config.Rules.{Rule, Checks}
use optictrace.Config.Telemetry.{
  Telemetry, Outside, ConfigError, first_in, validate_host_port, spans_error, app_logs_error,
  driver_error, auth_error, tls_error, resolve_token, origins_error, origin_error,
}
use optictrace.Config.Validate.{
  Config, Validated, accepted, invalid, settled, decided, validate_config, config_error,
  overlap_error, label_error, criterion_error, redacted_json_paths, exporters_error,
  logs_block_error, has_app_logs, is_present, rule_error, telemetry_error, rows_error, age_error,
}
use optictrace.Config.Accepted.{
  chain_none, first_in-All, exporters_error-distinct, rule_error-valid, label-unredacted,
  criterion-unredacted, IsSound,
}

wildcard :
    (k : Outside) (token : Text) (origins : List Text)
    → origins_error k token origins ≡ none
    → contains origins (codes "*") ≡ true
    → is_empty token ≡ false
unfolding origins_error contains
wildcard k token [] h m = cc
wildcard k token (o ∷ origins) h m =
    let (a, b) = chain_none (origin_error k token o) (first_in (origin_error k token) origins) h in
    ground (arith, a, m, beq_iff (codes "*") o, beq_iff o (codes "*"), wildcard k token origins b)

module _ (k : Outside) {F : Type 0} (c : Checks F) where
  logs_allowed :
      (cfg : Config F)
      → first_in (logs_block_error k c cfg.telemetry.app_logs) cfg.rules ≡ none
      → All
          (λ r. is_present k r.logs ≡ true → has_app_logs k cfg.telemetry.app_logs ≡ true)
          cfg.rules
  logs_allowed cfg h =
      All-imp (λ r e p. ground (arith, e, p)) cfg.rules
        (first_in-All (logs_block_error k c cfg.telemetry.app_logs) cfg.rules h)

  telemetry_none :
      (t : Telemetry) (rules : List (Rule F))
      → telemetry_error k c t rules ≡ none
      → (first_in (logs_block_error k c t.app_logs) rules ≡ none)
        × (origins_error k (resolve_token k t.auth) t.cors_origins ≡ none)
        × (exporters_error k [] t.exporters ≡ none)
  telemetry_none t rules h =
      let (address, b1) = chain_none (validate_host_port k t.admin_listen) _ h in
      let (spans, b2) = chain_none (spans_error k t.spans) _ b1 in
      let (app_logs, b3) = chain_none (app_logs_error k t.app_logs) _ b2 in
      let (logs, b4) = chain_none (first_in (logs_block_error k c t.app_logs) rules) _ b3 in
      let (origins, b5) =
        chain_none (origins_error k (resolve_token k t.auth) t.cors_origins) _ b4 in
      let (driver, b6) = chain_none (driver_error k t.store) _ b5 in
      let (auth, b7) = chain_none (auth_error k t.auth) _ b6 in
      let (tls, b8) = chain_none (tls_error k t.tls) _ b7 in
      let (rows, b9) = chain_none (rows_error k t.store.analysis_max_rows) _ b8 in
      let (age, exporters) = chain_none (age_error k t.store.retention_max_age) _ b9 in
      (logs, origins, exporters)

  config_error-IsSound : (cfg : Config F) → config_error k c cfg ≡ none → IsSound k c cfg
  unfolding config_error overlap_error
  config_error-IsSound cfg h =
      let redacted = redacted_json_paths k c cfg.rules in
      let t = cfg.telemetry in
      let (version, a1) = chain_none _ _ h in
      let (service, a2) = chain_none _ _ a1 in
      let (telemetry, a3) = chain_none (telemetry_error k c t cfg.rules) _ a2 in
      let (detectors, a4) = chain_none _ _ a3 in
      let (overlap, rules) = chain_none (first_in (overlap_error k c redacted) cfg.rules) _ a4 in
      let (logs, origins, exporters) = telemetry_none t cfg.rules telemetry in
      let apart = first_in-All (overlap_error k c redacted) cfg.rules overlap in
      record {
        rules_valid =
            All-imp (λ r e. rule_error-valid k c r e) cfg.rules
              (first_in-All (rule_error k c) cfg.rules rules);
        labels_unredacted =
            All-imp
              (λ r e.
                All-imp (λ l g ls p b. label-unredacted k c cfg.rules l ls g p b) r.labels
                  (first_in-All (label_error k c redacted) r.labels (chain_none _ _ e).0))
              cfg.rules apart;
        criteria_unredacted =
            All-imp
              (λ r e.
                All-imp (λ m g. criterion-unredacted k c cfg.rules m g) r.match.body
                  (first_in-All (criterion_error k c redacted) r.match.body
                    (chain_none (first_in (label_error k c redacted) r.labels) _ e).1))
              cfg.rules apart;
        logs_enabled = logs_allowed cfg logs;
        exporters_distinct = (exporters_error-distinct k [] t.exporters exporters).0;
        wildcard_guarded = wildcard k (resolve_token k t.auth) t.cors_origins origins;
      }

  abbrev pub outcome : Config F → Validated F → Config F
  outcome cfg (accepted out) = out
  outcome cfg (invalid e) = cfg

  pub decided-accepted :
      (cfg out : Config F) (e : Option ConfigError)
      → decided k c cfg e ≡ accepted out
      → (e ≡ none) × (settled k c cfg ≡ out)
  decided-accepted cfg out none h = (refl, ap (outcome cfg) h)
  decided-accepted cfg out (some e) h = absurd (ground (arith, h))

  -- In an accepted configuration every rule passes its own check, no label or body condition reads
  -- a JSON path that is listed for redaction in any rule, a rule has a block for logs only where
  -- application logs are enabled, exporters have different names, and a wildcard origin needs a
  -- token; the accepted configuration is the given one with the defaults of its exporters and
  -- rules filled in.
  pub validate_config-IsSound :
      (cfg out : Config F)
      → validate_config k c cfg ≡ accepted out
      → IsSound k c cfg × (settled k c cfg ≡ out)
  unfolding validate_config
  validate_config-IsSound cfg out h =
      let (none_found, same) = decided-accepted cfg out (config_error k c cfg) h in
      (config_error-IsSound cfg none_found, same)
