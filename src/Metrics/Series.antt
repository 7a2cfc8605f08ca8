-- ===== src/Metrics/Series.antt =====
-- internal/metrics/metrics.go: which series the custom labels can give.
use optictrace.Prelude.{
  ℕ, suc, pos, Bool, true, List, [], ◌∷◌, Text, lookup, ◌≡◌, refl, subst, sym, ◌==◌, arith,
  if_cases,
}
use optictrace.Metrics.{
  Dimensions, same_keys, on_stable, if_any, observes, relabels, inflight_inc, inflight_dec,
  stream_opened, stream_closed, store_dropped, sdk_ingested, app_log_stored, span_stored,
  app_log_dropped, span_dropped, span_observed, export_delivered, export_failed_with,
  export_dropped, Call, Collector, Observation, values_of, guard_all, observe_exchange,
  set_label_keys, step, run, Op, new, record_exchange,
}
use optictrace.Metrics.Guarded.{guard_all-AreGuarded, aligned, kept_after, has_kept, IsCapped}

record_exchange-IsCapped :
    (n : ℕ) (c : Collector) (o : Observation) (svc : Text) (vals : List Text)
    → IsCapped n c
    → aligned c.seen c.dims.keys vals ≡ true
    → IsCapped n (record_exchange o svc vals c)
unfolding has_kept kept_after
record_exchange-IsCapped n c o svc vals h a = record {
  limited = ground (arith, h.limited);
  few = λ k. ground (arith, h.few k);
  kept = ground (arith, h.kept);
}

observe_exchange-IsCapped :
    (n : ℕ) (c : Collector) (o : Observation) → IsCapped n c → IsCapped n (observe_exchange c o)
unfolding observe_exchange
observe_exchange-IsCapped n c o h =
    let g = guard_all-AreGuarded n c o.labels c.dims.keys h in
    let d = guard_all c o.labels c.dims.keys in
    record_exchange-IsCapped n d.0 o _ d.1 g.capped (
      subst (λ (x : Dimensions). aligned d.0.seen x.keys d.1 ≡ true) (sym g.same_schema)
        g.have_values)

set_label_keys-IsCapped :
    (n : ℕ) (c : Collector) (keys : List Text) → IsCapped n c → IsCapped n (set_label_keys c keys).0
unfolding set_label_keys values_of lookup
set_label_keys-IsCapped n c keys h =
    if_cases (λ (r : Collector × Bool). IsCapped n r.0) (same_keys c.dims.keys keys) _ _ (λ e. h)
      (λ e. record { limited = h.limited; few = λ k. omega arith; kept = refl })

stable-IsCapped :
    (n : ℕ) (c : Collector) (call : Call) → IsCapped n c → IsCapped n (on_stable call c)
stable-IsCapped n c call h = record { limited = h.limited; few = h.few; kept = h.kept }

if_any-IsCapped :
    (n k : ℕ) (c : Collector) (call : Call) → IsCapped n c → IsCapped n (if_any k call c)
if_any-IsCapped n k c call h =
    if_cases (IsCapped n) (k == 0) _ _ (λ e. h) (λ e. stable-IsCapped n c call h)

step-IsCapped : (n : ℕ) (c : Collector) (op : Op) → IsCapped n c → IsCapped n (step c op)
unfolding step
step-IsCapped n c (observes o) h = observe_exchange-IsCapped n c o h
step-IsCapped n c (relabels keys) h = set_label_keys-IsCapped n c keys h
step-IsCapped n c inflight_inc h = stable-IsCapped n c _ h
step-IsCapped n c inflight_dec h = stable-IsCapped n c _ h
step-IsCapped n c stream_opened h = stable-IsCapped n c _ h
step-IsCapped n c stream_closed h = stable-IsCapped n c _ h
step-IsCapped n c store_dropped h = stable-IsCapped n c _ h
step-IsCapped n c sdk_ingested h = stable-IsCapped n c _ h
step-IsCapped n c (app_log_stored k) h = if_any-IsCapped n k c _ h
step-IsCapped n c (span_stored k) h = if_any-IsCapped n k c _ h
step-IsCapped n c (app_log_dropped reason k) h = if_any-IsCapped n k c _ h
step-IsCapped n c (span_dropped reason k) h = if_any-IsCapped n k c _ h
step-IsCapped n c (span_observed name kind service k) h = stable-IsCapped n c _ h
step-IsCapped n c (export_delivered exporter k) h = stable-IsCapped n c _ h
step-IsCapped n c (export_failed_with exporter k) h = stable-IsCapped n c _ h
step-IsCapped n c (export_dropped exporter) h = stable-IsCapped n c _ h

run-keeps : (n : ℕ) (c : Collector) (ops : List Op) → IsCapped n c → IsCapped n (run c ops)
unfolding run
run-keeps n c [] h = h
run-keeps n c (op ∷ ops) h = run-keeps n (step c op) ops (step-IsCapped n c op h)

-- Whatever calls a collector with a positive cap receives, it keeps at most that many values for a
-- label, and every call on the vectors with custom labels gives each label the empty value, the
-- value `__over_limit__` or one of those kept, so that a label has at most two more values than
-- the cap.
pub run-IsCapped :
    (n : ℕ) (service : Text) (keys : List Text) (ops : List Op)
    → IsCapped n (run (new service keys (pos (suc n))) ops)
unfolding new values_of lookup
run-IsCapped n service keys ops =
    run-keeps n (new service keys (pos (suc n))) ops
      (record { limited = refl; few = λ k. omega arith; kept = refl })
