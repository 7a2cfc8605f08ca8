-- ===== src/Metrics/Tests.antt =====
-- Runs of the collector.
use optictrace.Prelude.{
  itoa, List, pos, true, false, [], ◌∷◌, Text, codes, length, map, ◌≡◌, refl, beq,
}
use optictrace.Metrics.{
  Observation, Collector, Op, observes, relabels, sdk_ingested, app_log_dropped, over_limit, guard,
  guard_all, new, run, Dimensions,
}
use optictrace.Metrics.Guarded.{IsCapped}
use optictrace.Metrics.Series.{run-IsCapped}
use optictrace.Metrics.Arity.{IsTyped, run-IsTyped}

itoa-404 : itoa 404 ≡ codes "404"
unfolding itoa
itoa-404 = refl

itoa-0 : itoa 0 ≡ codes "0"
unfolding itoa
itoa-0 = refl

abbrev tenant : Text
tenant = 1 ∷ []

abbrev exchange : Text → Observation
exchange value = record {
  service = [];
  method = codes "GET";
  route = codes "/a";
  status = 200;
  duration = 5;
  req_bytes = 0;
  resp_bytes = 9;
  labels = (tenant, value) ∷ [];
  stream = false;
}

abbrev fresh : Collector
fresh = new (codes "svc") (tenant ∷ []) (pos 1)

-- The second value of a label that may have one.
second_value : (guard (guard fresh tenant (7 ∷ [])).0 tenant (8 ∷ [])).1 ≡ over_limit
unfolding guard new optictrace.Prelude.contains optictrace.Metrics.values_of
    optictrace.Prelude.lookup optictrace.Prelude.insert
second_value = refl

abbrev calls : Op
calls = observes (exchange (7 ∷ []))

run-IsCapped_example : IsCapped 0 (
    run
      (new (codes "svc") (tenant ∷ []) (pos 1))
      (calls ∷ observes (exchange (8 ∷ [])) ∷ relabels [] ∷ sdk_ingested ∷ []))
run-IsCapped_example =
    run-IsCapped 0 (codes "svc") (tenant ∷ [])
      (calls ∷ observes (exchange (8 ∷ [])) ∷ relabels [] ∷ sdk_ingested ∷ [])

run-IsTyped_example : IsTyped (
    run
      (new (codes "svc") (tenant ∷ []) (pos 1))
      (calls ∷ app_log_dropped tenant 3 ∷ relabels (tenant ∷ tenant ∷ []) ∷ calls ∷ []))
run-IsTyped_example =
    run-IsTyped (codes "svc") (tenant ∷ []) (pos 1)
      (calls ∷ app_log_dropped tenant 3 ∷ relabels (tenant ∷ tenant ∷ []) ∷ calls ∷ [])

abbrev two : List Observation
two = exchange (7 ∷ []) ∷ record (exchange (8 ∷ [])) { stream = true } ∷ []
