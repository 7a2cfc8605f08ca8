-- ===== src/Config/Stable.antt =====
-- internal/config/config.go, Validate: an accepted configuration validated again.
use optictrace.Prelude.{
  ℕ, suc, ℤ, true, Option, none, List, [], ◌∷◌, Text, codes, contains, is_empty, ◌==◌, map, every,
  if◌then◌else◌, to_upper, ◌≡◌, refl, arith, ◌∙◌, ap,
}
use optictrace.Config.Rules.{Rule, Checks, validate, normalize, valid_methods}
use optictrace.Config.Telemetry.{
  Telemetry, Outside, ConfigError, ExporterCfg, first_failed, and_then, first_in, bad_version,
}
use optictrace.Config.Validate.{
  Config, settled, config_error, overlap_error, redacted_json_paths, exporters_error,
  exporter_error, with_defaults, logs_block_error, rule_error, telemetry_error, or_value,
  is_duration, reported, service_error, detectors_error,
}
use optictrace.Config.Accepted.{chain_none}

defaulted : (d : ℕ) (n : ℤ) → or_value (suc d) (or_value (suc d) n) ≡ or_value (suc d) n
defaulted d n = ground arith

interval :
    (t : Text)
    → (if is_empty (if is_empty t then codes "3s" else t)
        then codes "3s"
        else (if is_empty t then codes "3s" else t))
      ≡ (if is_empty t then codes "3s" else t)
interval [] = refl
interval (c ∷ t) = refl

join_none : (a b : Option ConfigError) → a ≡ none → b ≡ none → and_then a b ≡ none
join_none a b h g = rw h g

to_upper_idem : (s : Text) → to_upper (to_upper s) ≡ to_upper s
unfolding to_upper
to_upper_idem [] = refl
to_upper_idem (c ∷ s) = ground (arith, to_upper_idem s)

upper_methods : (ms : List Text) → map to_upper (map to_upper ms) ≡ map to_upper ms
upper_methods [] = refl
upper_methods (m ∷ ms) = ground (arith, to_upper_idem m, upper_methods ms)

every-upper :
    (ms : List Text)
    → every (λ m. contains valid_methods (to_upper m)) (map to_upper ms)
      ≡ every (λ m. contains valid_methods (to_upper m)) ms
every-upper [] = refl
every-upper (m ∷ ms) = rw (to_upper_idem m, every-upper ms) refl

first_in-map :
    {A : Type 0} (f : A → Option ConfigError) (g : A → A) (xs : List A)
    → ((x : A) → f (g x) ≡ f x)
    → first_in f (map g xs) ≡ first_in f xs
first_in-map f g [] h = refl
first_in-map f g (x ∷ xs) h = rw (h x, first_in-map f g xs h) refl

module _ {F : Type 0} (c : Checks F) where
  validate-normalize : (r : Rule F) → validate c (normalize c r) ≡ validate c r
  unfolding validate normalize
  validate-normalize r = rw (every-upper r.match.methods) refl

  normalize_idem :
      (rules : List (Rule F))
      → map (normalize c) (map (normalize c) rules) ≡ map (normalize c) rules
  unfolding normalize
  normalize_idem [] = refl
  normalize_idem (r ∷ rules) = rw (upper_methods r.match.methods, normalize_idem rules) refl

module _ (k : Outside) (seconds : is_duration k (k.parse_duration (codes "3s")) ≡ true) where
  exporter_error-with_defaults :
      (e : ExporterCfg) → exporter_error k e ≡ none → exporter_error k (with_defaults k e) ≡ none
  unfolding exporter_error with_defaults
  exporter_error-with_defaults e h = ground (arith, h, seconds)

  exporters_error-defaults :
      (seen : List Text) (es : List ExporterCfg)
      → exporters_error k seen es ≡ none
      → exporters_error k seen (map (with_defaults k) es) ≡ none
  unfolding exporters_error with_defaults
  exporters_error-defaults seen [] h = refl
  exporters_error-defaults seen (e ∷ es) h =
      let (a, rest) = chain_none (exporter_error k e) _ h in
      ground
        (arith, rest, exporter_error-with_defaults e a, exporters_error-defaults (e.name ∷ seen) es)

  with_defaults_idem :
      (es : List ExporterCfg)
      → map (with_defaults k) (map (with_defaults k) es) ≡ map (with_defaults k) es
  unfolding with_defaults
  with_defaults_idem [] = refl
  with_defaults_idem (e ∷ es) =
      rw
        (
          defaulted 49 e.batch_size,
          defaulted 1023 e.queue_size,
          defaulted 99 e.max_size_mb,
          interval e.flush_interval,
          with_defaults_idem es,
        )
        refl

  module _ {F : Type 0} (c : Checks F) where
    redacted-normalize :
        (rules : List (Rule F))
        → redacted_json_paths k c (map (normalize c) rules) ≡ redacted_json_paths k c rules
    unfolding redacted_json_paths normalize
    redacted-normalize [] = refl
    redacted-normalize (r ∷ rules) = rw (redacted-normalize rules) refl

    telemetry_error-settled :
        (t : Telemetry) (rules : List (Rule F))
        → telemetry_error k c t rules ≡ none
        → telemetry_error k c
            (record t { exporters = map (with_defaults k) t.exporters })
            (map (normalize c) rules)
          ≡ none
    telemetry_error-settled t rules h =
        let logs =
          first_in-map (logs_block_error k c t.app_logs) (normalize c) rules
            (λ r. unfold normalize in refl) in
        ground (arith, h, logs, exporters_error-defaults [] t.exporters)

    pub config_error-settled :
        (cfg : Config F) → config_error k c cfg ≡ none → config_error k c (settled k c cfg) ≡ none
    unfolding config_error
    config_error-settled cfg h =
        let redacted = redacted_json_paths k c cfg.rules in
        let same = redacted-normalize cfg.rules in
        let overlap =
          first_in-map (overlap_error k c redacted) (normalize c) cfg.rules
            (λ r. unfold normalize overlap_error in refl) in
        let valid =
          first_in-map (rule_error k c) (normalize c) cfg.rules
            (λ r. ap (reported k c) (validate-normalize c r)) in
        let (version, a1) = chain_none (first_failed ((cfg.version == 1, bad_version) ∷ [])) _ h in
        let (service, a2) = chain_none (service_error k c cfg.service) _ a1 in
        let (telemetry, a3) = chain_none (telemetry_error k c cfg.telemetry cfg.rules) _ a2 in
        let (detectors, a4) = chain_none (detectors_error k [] cfg.detectors) _ a3 in
        let (apart, rules) = chain_none (first_in (overlap_error k c redacted) cfg.rules) _ a4 in
        join_none _ _ version (
          join_none _ _ service (
            join_none _ _ (telemetry_error-settled cfg.telemetry cfg.rules telemetry) (
              join_none _ _ detectors (join_none _ _ (rw same (overlap ∙ apart)) (valid ∙ rules)))))

    pub settled_idem : (cfg : Config F) → settled k c (settled k c cfg) ≡ settled k c cfg
    settled_idem cfg =
        rw (with_defaults_idem cfg.telemetry.exporters, normalize_idem c cfg.rules) refl
