-- ===== src/Metrics.antt =====
-- internal/metrics/metrics.go: the collector. A Prometheus registry is the list of the calls made on
-- its vectors, the newest first; how it prints them is not modelled.
mod Tests
pub mod Series
pub mod Arity
pub mod Guarded
pub mod Totals
use optictrace.Prelude.{
  itoa, ℕ, zero, suc, ◌+◌, ◌/◌, ◌%◌, ℤ, pos, negsuc, Bool, true, false, ◌&&◌, Option, none, some,
  List, [], ◌∷◌, ◌++◌, Text, codes, beq, contains, lookup, insert, length, is_empty, leb, ltb, ◌==◌,
  if◌then◌else◌,
}

pub data Metric : Type 0 where
  requests duration req_size resp_size streams stream_duration streams_open inflight dropped
        ingested app_logs_stored app_logs_dropped spans_stored spans_dropped span_duration exported
        export_failed export_drops label_capped label_distinct :
      Metric

-- A call on a vector, with the label values: `Inc` and `Add`, `Dec`, `Set`, and `Observe` with
-- nanoseconds or bytes.
pub data Call : Type 0 where
  add dec set observe : Metric → List Text → ℕ → Call

pub record Observation : Type 0 where
  pub service : Text
  pub method : Text
  pub route : Text
  pub status : ℕ
  pub duration : ℕ
  pub req_bytes : ℕ
  pub resp_bytes : ℕ
  pub labels : List (Text × Text)
  pub stream : Bool

abbrev pub over_limit : Text
over_limit = codes "__over_limit__"

-- What a reload replaces as a whole: the label schema, and the registry of the vectors that have it.
pub record Dimensions : Type 0 where
  pub keys : List Text
  pub calls : List Call

pub record Collector : Type 0 where
  pub service : Text
  pub max_label_values : ℤ
  pub seen : List (Text × List Text)
  pub dims : Dimensions
  pub stable : List Call

abbrev pub new_dimensions : List Text → Dimensions
new_dimensions keys = record { keys = keys; calls = [] }

-- The label names that each vector is registered with.
unfoldable pub label_names : List Text → Metric → List Text
label_names keys requests =
    codes "service" ∷ codes "method" ∷ codes "route" ∷ codes "status" ∷ codes "status_class" ∷ keys
label_names keys duration = codes "service" ∷ codes "method" ∷ codes "route" ∷ keys
label_names keys req_size = codes "method" ∷ codes "route" ∷ []
label_names keys resp_size = codes "method" ∷ codes "route" ∷ []
label_names keys streams = codes "method" ∷ codes "route" ∷ []
label_names keys stream_duration = codes "method" ∷ codes "route" ∷ []
label_names keys app_logs_dropped = codes "reason" ∷ []
label_names keys spans_dropped = codes "reason" ∷ []
label_names keys span_duration = codes "name" ∷ codes "kind" ∷ codes "service" ∷ []
label_names keys exported = codes "exporter" ∷ []
label_names keys export_failed = codes "exporter" ∷ []
label_names keys export_drops = codes "exporter" ∷ []
label_names keys label_capped = codes "label" ∷ []
label_names keys label_distinct = codes "label" ∷ []
label_names keys _ = []

unfoldable pub new : Text → List Text → ℤ → Collector
new service custom_keys max_label_values = record {
  service = service;
  max_label_values = max_label_values;
  seen = [];
  dims = new_dimensions custom_keys;
  stable = [];
}

abbrev pub on_stable : Call → Collector → Collector
on_stable call c = record c { stable = call ∷ c.stable }

abbrev pub on_dims : Call → Collector → Collector
on_dims call c = record c { dims = record c.dims { calls = call ∷ c.dims.calls } }

abbrev pub all_of : Option (List Text) → List Text
all_of none = []
all_of (some vals) = vals

unfoldable pub values_of : List (Text × List Text) → Text → List Text
values_of seen key = all_of (lookup key seen)

-- `maxLabelValues <= 0` is no limit.
abbrev pub limit : ℤ → Option ℕ
limit (negsuc n) = none
limit (pos zero) = none
limit (pos (suc n)) = some (suc n)

abbrev pub admit_value : Collector → Text → Text → List Text → Collector
admit_value c key value vals =
    on_stable (set label_distinct (key ∷ []) (suc (length vals)))
      (record c { seen = insert key (value ∷ vals) c.seen })

abbrev pub guard_under : Option ℕ → Collector → Text → Text → Collector × Text
guard_under none c key value = (c, value)
guard_under (some n) c key value =
    let vals = values_of c.seen key in
    if is_empty value
    then (c, value)
    else if contains vals value
    then (c, value)
    else if leb n (length vals)
    then (on_stable (add label_capped (key ∷ []) 1) c, over_limit)
    else (admit_value c key value vals, value)

unfoldable pub guard : Collector → Text → Text → Collector × Text
guard c key value = guard_under (limit c.max_label_values) c key value

abbrev pub label_of : Option Text → Text
label_of none = []
label_of (some v) = v

-- `for _, k := range d.keys { v := c.guard(k, o.Labels[k]); … }`
unfoldable pub guard_all : Collector → List (Text × Text) → List Text → Collector × List Text
guard_all c labels [] = (c, [])
guard_all c labels (k ∷ keys) =
    let (d, v) = guard c k (label_of (lookup k labels)) in
    let (e, vals) = guard_all d labels keys in (e, v ∷ vals)

unfoldable pub status_class : ℕ → Text
status_class code =
    if leb 500 code
    then codes "5xx"
    else if leb 400 code
    then codes "4xx"
    else if leb 300 code
    then codes "3xx"
    else if leb 200 code
    then codes "2xx"
    else codes "1xx"

abbrev pub service_of : Collector → Observation → Text
service_of c o = if is_empty o.service then c.service else o.service

abbrev pub time_exchange : Observation → List Text → Collector → Collector
time_exchange o duration_vals c =
    let by_route = o.method ∷ o.route ∷ [] in
    if o.stream
    then on_stable (observe stream_duration by_route o.duration)
        (on_stable (add streams by_route 1) c)
    else on_dims (observe duration duration_vals o.duration) c

abbrev pub measure_size : Metric → Observation → ℕ → Collector → Collector
measure_size metric o n c =
    if n == 0 then c else on_stable (observe metric (o.method ∷ o.route ∷ []) n) c

abbrev pub record_exchange : Observation → Text → List Text → Collector → Collector
record_exchange o svc vals c = measure_size resp_size o o.resp_bytes (
    measure_size req_size o o.req_bytes (
      time_exchange o (svc ∷ o.method ∷ o.route ∷ vals) (
        on_dims
          (add requests (svc ∷ o.method ∷ o.route ∷ itoa o.status ∷ status_class o.status ∷ vals) 1)
          c)))

-- Observe
unfoldable pub observe_exchange : Collector → Observation → Collector
observe_exchange c o =
    let (d, vals) = guard_all c o.labels c.dims.keys in record_exchange o (service_of c o) vals d

-- slices.Equal
unfoldable pub same_keys : List Text → List Text → Bool
same_keys [] [] = true
same_keys (x ∷ xs) (y ∷ ys) = beq x y && same_keys xs ys
same_keys _ _ = false

-- SetLabelKeys, with whether anything changed.
unfoldable pub set_label_keys : Collector → List Text → Collector × Bool
set_label_keys c keys =
    if same_keys c.dims.keys keys
    then (c, false)
    else (record c { dims = new_dimensions keys; seen = [] }, true)

-- The calls that only count, `n > 0` where the source asks for it.
pub data Op : Type 0 where
  observes : Observation → Op
  relabels : List Text → Op
  inflight_inc inflight_dec stream_opened stream_closed store_dropped sdk_ingested : Op
  app_log_stored span_stored : ℕ → Op
  app_log_dropped span_dropped : Text → ℕ → Op
  span_observed : Text → Text → Text → ℕ → Op
  export_delivered export_failed_with : Text → ℕ → Op
  export_dropped : Text → Op

abbrev pub if_any : ℕ → Call → Collector → Collector
if_any n call c = if n == 0 then c else on_stable call c

unfoldable pub step : Collector → Op → Collector
step c (observes o) = observe_exchange c o
step c (relabels keys) = (set_label_keys c keys).0
step c inflight_inc = on_stable (add inflight [] 1) c
step c inflight_dec = on_stable (dec inflight [] 1) c
step c stream_opened = on_stable (add streams_open [] 1) c
step c stream_closed = on_stable (dec streams_open [] 1) c
step c store_dropped = on_stable (add dropped [] 1) c
step c sdk_ingested = on_stable (add ingested [] 1) c
step c (app_log_stored n) = if_any n (add app_logs_stored [] n) c
step c (span_stored n) = if_any n (add spans_stored [] n) c
step c (app_log_dropped reason n) = if_any n (add app_logs_dropped (reason ∷ []) n) c
step c (span_dropped reason n) = if_any n (add spans_dropped (reason ∷ []) n) c
step c (span_observed name kind service n) =
    on_stable
      (observe span_duration
        (name ∷ (if is_empty kind then codes "unspecified" else kind) ∷ service ∷ []) n)
      c
step c (export_delivered exporter n) = on_stable (add exported (exporter ∷ []) n) c
step c (export_failed_with exporter n) = on_stable (add export_failed (exporter ∷ []) n) c
step c (export_dropped exporter) = on_stable (add export_drops (exporter ∷ []) 1) c

-- The collector after a sequence of calls.
unfoldable pub run : Collector → List Op → Collector
run c [] = c
run c (op ∷ ops) = run (step c op) ops
