-- ===== src/Scan/Walk.antt =====
-- internal/scan/scan.go: the values that the scanner visits in a record, a log line and a span.
use optictrace.Prelude.{
  ℕ, zero, suc, ◌+◌, Option, none, some, List, [], ◌∷◌, ◌++◌, Text, codes, is_empty, map,
  if◌then◌else◌,
}
use optictrace.Json.{Value, Items, Fields, null, bool, num, str, arr, obj, nil, cons, end, field}
use optictrace.Scan.Scanner.{
  Scanner, Place, Readers, visit_all, raw_field, suggest, suggest_app_log, suggest_span_attr,
}

-- What the scanner reads of a store.Record, an ext.AppLog and an ext.Span.
pub record Record : Type 0 where
  pub method : Text
  pub route : Text
  pub time : ℕ
  pub query : Text
  pub request_body : Text
  pub response_body : Text
  pub request_headers : List (Text × Text)
  pub response_headers : List (Text × Text)

pub record Line : Type 0 where
  pub service : Text
  pub level : Text
  pub message : Text
  pub fields : List (Text × Text)
  pub time : ℕ

pub record Span : Type 0 where
  pub service : Text
  pub name : Text
  pub error : Text
  pub attrs : List (Text × Text)
  pub start : ℕ

module _ {F : Type 0} (r : Readers F) where
  -- formatNumber
  unfoldable pub format_number : F → Text
  format_number n = if r.is_int64 n then r.print_int n else r.print_general n

  -- walk, the depth as its distance to the limit; the visits in their order.
  unfoldable mutual
    unfolding format_number

    pub walk : ℕ → Value F → Text → List (Text × Text)
    walk zero v path = []
    walk (suc left) (obj fs) path = walk_fields left fs path
    walk (suc left) (arr vs) path = walk_items left vs path
    walk (suc left) (str t) path = (path, t) ∷ []
    walk (suc left) (num n) path = (path, format_number n) ∷ []
    walk (suc left) (bool b) path = []
    walk (suc left) null path = []

    pub walk_fields : ℕ → Fields F → Text → List (Text × Text)
    walk_fields left end path = []
    walk_fields left (field k v fs) path =
        walk left v (path ++ b'.' ∷ k) ++ walk_fields left fs path

    pub walk_items : ℕ → Items F → Text → List (Text × Text)
    walk_items left nil path = []
    walk_items left (cons v vs) path = walk left v path ++ walk_items left vs path

  abbrev pub walk_decoded : Text → Option (Value F) → List (Text × Text)
  walk_decoded body none = (raw_field, body) ∷ []
  walk_decoded body (some v) = walk 13 v (codes "$")

  unfoldable pub scan_body : Text → List (Text × Text)
  unfolding walk
  scan_body body = if is_empty body then [] else walk_decoded body (r.decode body)

  abbrev pub place : Record → Text → Text × Text → Place × Text
  place rec location (name, value) = (
    record {
      method = rec.method;
      route = rec.route;
      location = location;
      field = name;
      time = rec.time;
      suggest = suggest r.quote location name;
    },
    value,
  )

  abbrev pub each_value : Text → List Text → List (Text × Text)
  each_value name [] = []
  each_value name (v ∷ vs) = (name, v) ∷ each_value name vs

  abbrev pub query_values : List (Text × List Text) → List (Text × Text)
  query_values [] = []
  query_values ((name, vs) ∷ m) = each_value name vs ++ query_values m

  abbrev pub parsed_values : Option (List (Text × List Text)) → List (Text × Text)
  parsed_values none = []
  parsed_values (some m) = query_values m

  abbrev pub scan_query : Text → List (Text × Text)
  scan_query query = if is_empty query then [] else parsed_values (r.parse_query query)

  unfoldable pub visits_of : Record → List (Place × Text)
  unfolding scan_body suggest
  visits_of rec =
      map (place rec (codes "request_body")) (scan_body rec.request_body)
      ++ map (place rec (codes "response_body")) (scan_body rec.response_body)
      ++ map (place rec (codes "query")) (scan_query rec.query)
      ++ map (place rec (codes "request_headers")) rec.request_headers
      ++ map (place rec (codes "response_headers")) rec.response_headers

  -- Add
  unfoldable pub add : Scanner → Record → Scanner
  unfolding visit_all visits_of
  add s rec = record s {
    scanned = s.scanned + 1;
    agg = visit_all s.detectors (visits_of rec) s.agg;
  }

abbrev pub line_place : Line → Text × Text → Place × Text
line_place l (name, value) = (
  record {
    method = l.service;
    route = codes "log:" ++ l.level;
    location = codes "app_log";
    field = name;
    time = l.time;
    suggest = suggest_app_log name;
  },
  value,
)

-- AddAppLog
unfoldable pub add_app_log : Scanner → Line → Scanner
unfolding visit_all suggest_app_log
add_app_log s l = record s {
  lines_scanned = s.lines_scanned + 1;
  agg = visit_all s.detectors (map (line_place l) ((codes "message", l.message) ∷ l.fields)) s.agg;
}

abbrev pub span_place : Span → Text × Text → Place × Text
span_place sp (name, value) = (
  record {
    method = sp.service;
    route = codes "span:" ++ sp.name;
    location = codes "span_attr";
    field = name;
    time = sp.start;
    suggest = suggest_span_attr name;
  },
  value,
)

-- AddSpan
unfoldable pub add_span : Scanner → Span → Scanner
unfolding visit_all suggest_span_attr
add_span s sp = record s {
  spans_scanned = s.spans_scanned + 1;
  agg =
      visit_all s.detectors (map (span_place sp) (sp.attrs ++ (codes "error", sp.error) ∷ []))
        s.agg;
}
