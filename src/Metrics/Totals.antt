-- ===== src/Metrics/Totals.antt =====
-- internal/metrics/metrics.go: what a run of observations adds up to.
use optictrace.Prelude.{
  ℕ, ◌+◌, Bool, true, false, Option, none, some, List, [], ◌∷◌, Text, length, if◌then◌else◌, ◌≡◌,
  refl, arith, map, lookup, ◌∙◌, ap,
}
use optictrace.Metrics.{
  Dimensions, Call, Metric, requests, duration, stream_duration, Collector, Observation, observes,
  limit, guard, guard_under, guard_all, observe_exchange, record_exchange, step, run, label_of,
}
use optictrace.Metrics.Guarded.{metric_of}

abbrev pub is_request : Metric → Bool
is_request requests = true
is_request _ = false

abbrev pub is_duration : Metric → Bool
is_duration duration = true
is_duration _ = false

abbrev pub is_stream : Metric → Bool
is_stream stream_duration = true
is_stream _ = false

-- How many calls were made on a vector.
unfoldable pub count_calls : (Metric → Bool) → List Call → ℕ
count_calls p [] = 0
count_calls p (call ∷ calls) = (if p (metric_of call) then 1 else 0) + count_calls p calls

unfoldable pub count_streams : List Observation → ℕ
count_streams [] = 0
count_streams (o ∷ obs) = (if o.stream then 1 else 0) + count_streams obs

record IsQuiet (c d : Collector) : Type 0 where
  same_dims : d.dims ≡ c.dims
  same_streams : count_calls is_stream d.stable ≡ count_calls is_stream c.stable

guard_under-IsQuiet :
    (m : Option ℕ) (c : Collector) (key v : Text) → IsQuiet c (guard_under m c key v).0
unfolding count_calls
guard_under-IsQuiet none c key v = record { same_dims = refl; same_streams = refl }
guard_under-IsQuiet (some n) c key v = record {
  same_dims = ground arith;
  same_streams = ground arith;
}

guard_all-IsQuiet :
    (c : Collector) (labels : List (Text × Text)) (keys : List Text)
    → IsQuiet c (guard_all c labels keys).0
unfolding guard_all guard
guard_all-IsQuiet c labels [] = record { same_dims = refl; same_streams = refl }
guard_all-IsQuiet c labels (k ∷ keys) =
    let v = label_of (lookup k labels) in
    let one = guard_under-IsQuiet (limit c.max_label_values) c k v in
    let rest = guard_all-IsQuiet (guard c k v).0 labels keys in
    record {
      same_dims = rest.same_dims ∙ one.same_dims;
      same_streams = rest.same_streams ∙ one.same_streams;
    }

-- What a collector has gained over another.
pub record Gains (c d : Collector) (exchanges streamed : ℕ) : Type 0 where
  pub counted :
      count_calls is_request d.dims.calls ≡ exchanges + count_calls is_request c.dims.calls
  pub timed :
      streamed + count_calls is_duration d.dims.calls
      ≡ exchanges + count_calls is_duration c.dims.calls
  pub streams_timed : count_calls is_stream d.stable ≡ streamed + count_calls is_stream c.stable

record_exchange-Gains :
    (c d : Collector) (o : Observation) (svc : Text) (vals : List Text)
    → IsQuiet c d
    → Gains c (record_exchange o svc vals d) 1 (if o.stream then 1 else 0)
unfolding count_calls
record_exchange-Gains c d o svc vals q =
    let dims = ap (λ (x : Dimensions). x.calls) q.same_dims in
    record {
      counted = ground (arith, ap (count_calls is_request) dims);
      timed = ground (arith, ap (count_calls is_duration) dims);
      streams_timed = ground (arith, q.same_streams);
    }

observe_exchange-Gains :
    (c : Collector) (o : Observation) → Gains c (observe_exchange c o) 1 (if o.stream then 1 else 0)
unfolding observe_exchange
observe_exchange-Gains c o =
    record_exchange-Gains c _ o _ _ (guard_all-IsQuiet c o.labels c.dims.keys)

-- Each exchange of a run is counted once as a request and timed once.
pub run-Gains :
    (c : Collector) (obs : List Observation)
    → Gains c (run c (map observes obs)) (length obs) (count_streams obs)
unfolding run step count_streams
run-Gains c [] = record { counted = omega arith; timed = omega arith; streams_timed = omega arith }
run-Gains c (o ∷ obs) =
    let one = observe_exchange-Gains c o in
    let rest = run-Gains (observe_exchange c o) obs in
    record {
      counted = omega (arith, one.counted, rest.counted);
      timed = omega (arith, one.timed, rest.timed);
      streams_timed = omega (arith, one.streams_timed, rest.streams_timed);
    }
