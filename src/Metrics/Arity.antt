-- ===== src/Metrics/Arity.antt =====
-- internal/metrics/metrics.go: the label values of a call against the schema of its vector.
use optictrace.Prelude.{
  ℕ, suc, ℤ, Bool, true, false, not, ◌&&◌, Option, none, some, List, [], ◌∷◌, Text, lookup, length,
  is_empty, contains, every, leb, ◌==◌, ◌≡◌, refl, ◌∙◌, ap, sym, arith, if_cases,
}
use optictrace.Metrics.{
  Call, add, set, label_capped, label_distinct, Collector, Dimensions, Observation, Op, observes,
  relabels, inflight_inc, inflight_dec, stream_opened, stream_closed, store_dropped, sdk_ingested,
  app_log_stored, span_stored, app_log_dropped, span_dropped, span_observed, export_delivered,
  export_failed_with, export_dropped, label_names, values_of, limit, guard, guard_under, guard_all,
  on_stable, if_any, observe_exchange, record_exchange, set_label_keys, same_keys, step, run, new,
  label_of,
}
use optictrace.Metrics.Guarded.{base_labels, metric_of, label_values}

abbrev pub is_custom : Option ℕ → Bool
is_custom none = false
is_custom (some n) = true

-- As many values as label names, on a vector of the stated registry.
unfoldable pub fits : Bool → List Text → Call → Bool
unfolding label_names
fits true keys call =
    is_custom (base_labels (metric_of call))
    && length (label_values call) == length (label_names keys (metric_of call))
fits false keys call =
    not (is_custom (base_labels (metric_of call)))
    && length (label_values call) == length (label_names keys (metric_of call))

pub record IsTyped (c : Collector) : Type 0 where
  pub replaced : every (fits true c.dims.keys) c.dims.calls ≡ true
  pub lasting : every (fits false []) c.stable ≡ true

stable-IsTyped :
    (c : Collector) (call : Call)
    → fits false [] call ≡ true
    → IsTyped c
    → IsTyped (on_stable call c)
stable-IsTyped c call f h = record { replaced = h.replaced; lasting = ground (arith, f, h.lasting) }

if_any-IsTyped :
    (k : ℕ) (c : Collector) (call : Call)
    → fits false [] call ≡ true
    → IsTyped c
    → IsTyped (if_any k call c)
if_any-IsTyped k c call f h =
    if_cases IsTyped (k == 0) _ _ (λ e. h) (λ e. stable-IsTyped c call f h)

record IsGuarded (c : Collector) (keys : List Text) (r : Collector × List Text) : Type 0 where
  typed : IsTyped r.0
  same_schema : r.0.dims ≡ c.dims
  as_many : length r.1 ≡ length keys

label-fits :
    (key : Text) (n : ℕ)
    → (fits false [] (add label_capped (key ∷ []) n) ≡ true)
      × (fits false [] (set label_distinct (key ∷ []) n) ≡ true)
unfolding fits
label-fits key n = (refl, refl)

guard_under-IsTyped :
    (m : Option ℕ) (c : Collector) (key v : Text)
    → IsTyped c
    → IsTyped (guard_under m c key v).0 × ((guard_under m c key v).0.dims ≡ c.dims)
guard_under-IsTyped none c key v h = (h, refl)
guard_under-IsTyped (some n) c key v h =
    if_cases Fine (is_empty v) _ _ (λ e. (h, refl))
      (λ e.
        if_cases Fine (contains (values_of c.seen key) v) _ _ (λ m. (h, refl))
          (λ m.
            if_cases Fine (leb n (length (values_of c.seen key))) _ _
              (λ full. (stable-IsTyped c _ (label-fits key 1).0 h, refl))
              (λ room. (
                record {
                  replaced = h.replaced;
                  lasting = rw ((label-fits key (suc (length (values_of c.seen key)))).1) h.lasting;
                },
                refl,
              ))))
  where
    Fine : Collector × Text → Type 0
    Fine r = IsTyped r.0 × (r.0.dims ≡ c.dims)

guard_all-AreTyped :
    (c : Collector) (labels : List (Text × Text)) (keys : List Text)
    → IsTyped c
    → IsGuarded c keys (guard_all c labels keys)
unfolding guard_all guard
guard_all-AreTyped c labels [] h = record { typed = h; same_schema = refl; as_many = refl }
guard_all-AreTyped c labels (k ∷ keys) h =
    let v = label_of (lookup k labels) in
    let one = guard_under-IsTyped (limit c.max_label_values) c k v h in
    let rest = guard_all-AreTyped (guard c k v).0 labels keys one.0 in
    record {
      typed = rest.typed;
      same_schema = rest.same_schema ∙ one.1;
      as_many = ap suc rest.as_many;
    }

record_exchange-IsTyped :
    (c : Collector) (o : Observation) (svc : Text) (vals : List Text)
    → IsTyped c
    → length vals ≡ length c.dims.keys
    → IsTyped (record_exchange o svc vals c)
unfolding fits
record_exchange-IsTyped c o svc vals h e = record {
  replaced = ground (arith, h.replaced, e);
  lasting = ground (arith, h.lasting, e);
}

observe_exchange-IsTyped :
    (c : Collector) (o : Observation) → IsTyped c → IsTyped (observe_exchange c o)
unfolding observe_exchange
observe_exchange-IsTyped c o h =
    let g = guard_all-AreTyped c o.labels c.dims.keys h in
    record_exchange-IsTyped _ o _ _ g.typed
      (g.as_many ∙ ap (λ (d : Dimensions). length d.keys) (sym g.same_schema))

set_label_keys-IsTyped :
    (c : Collector) (keys : List Text) → IsTyped c → IsTyped (set_label_keys c keys).0
unfolding set_label_keys
set_label_keys-IsTyped c keys h =
    if_cases (λ (r : Collector × Bool). IsTyped r.0) (same_keys c.dims.keys keys) _ _ (λ e. h)
      (λ e. record { replaced = refl; lasting = h.lasting })

step-IsTyped : (c : Collector) (op : Op) → IsTyped c → IsTyped (step c op)
unfolding step fits
step-IsTyped c (observes o) h = observe_exchange-IsTyped c o h
step-IsTyped c (relabels keys) h = set_label_keys-IsTyped c keys h
step-IsTyped c inflight_inc h = stable-IsTyped c _ refl h
step-IsTyped c inflight_dec h = stable-IsTyped c _ refl h
step-IsTyped c stream_opened h = stable-IsTyped c _ refl h
step-IsTyped c stream_closed h = stable-IsTyped c _ refl h
step-IsTyped c store_dropped h = stable-IsTyped c _ refl h
step-IsTyped c sdk_ingested h = stable-IsTyped c _ refl h
step-IsTyped c (app_log_stored k) h = if_any-IsTyped k c _ refl h
step-IsTyped c (span_stored k) h = if_any-IsTyped k c _ refl h
step-IsTyped c (app_log_dropped reason k) h = if_any-IsTyped k c _ refl h
step-IsTyped c (span_dropped reason k) h = if_any-IsTyped k c _ refl h
step-IsTyped c (span_observed name kind service k) h = stable-IsTyped c _ refl h
step-IsTyped c (export_delivered exporter k) h = stable-IsTyped c _ refl h
step-IsTyped c (export_failed_with exporter k) h = stable-IsTyped c _ refl h
step-IsTyped c (export_dropped exporter) h = stable-IsTyped c _ refl h

run-types : (c : Collector) (ops : List Op) → IsTyped c → IsTyped (run c ops)
unfolding run
run-types c [] h = h
run-types c (op ∷ ops) h = run-types (step c op) ops (step-IsTyped c op h)

-- Every call that a collector ever makes, before and after a change of the label schema, has as
-- many values as its vector has labels, and the vectors with custom labels, and only these, stand
-- in the registry that a reload replaces.
pub run-IsTyped :
    (service : Text) (keys : List Text) (cap : ℤ) (ops : List Op)
    → IsTyped (run (new service keys cap) ops)
unfolding new
run-IsTyped service keys cap ops =
    run-types (new service keys cap) ops (record { replaced = refl; lasting = refl })
