-- ===== src/Scan/Scanner.antt =====
-- internal/scan/scan.go: the scanner, which folds records, log lines and spans into findings.
use optictrace.Prelude.{
  ℕ, ◌+◌, Bool, ◌&&◌, ◌||◌, Option, List, [], ◌∷◌, ◌++◌, Text, codes, beq, any, leb, ltb, max, min,
  ◌==◌, if◌then◌else◌, reverse, text_le, trim_prefix,
}
use optictrace.Json.{Value}
use optictrace.Scan.{Detector, Match, find_with, critical, high, medium}

pub record Finding : Type 0 where
  pub kind : Text
  pub severity : Text
  pub why : Text
  pub method : Text
  pub route : Text
  pub location : Text
  pub field : Text
  pub count : ℕ
  pub first_at : ℕ
  pub last_at : ℕ
  pub sample : Text
  pub suggest : Text

-- Where and when a value was met.
pub record Place : Type 0 where
  pub method : Text
  pub route : Text
  pub location : Text
  pub field : Text
  pub time : ℕ
  pub suggest : Text

abbrev pub first_finding : Place → Match → Finding
first_finding p m = record {
  kind = m.kind;
  severity = m.severity;
  why = m.why;
  method = p.method;
  route = p.route;
  location = p.location;
  field = p.field;
  count = 1;
  first_at = p.time;
  last_at = p.time;
  sample = m.masked;
  suggest = p.suggest;
}

abbrev pub is_at : Place → Match → Finding → Bool
is_at p m f =
    beq f.kind m.kind
    && beq f.method p.method
    && beq f.route p.route
    && beq f.location p.location
    && beq f.field p.field

abbrev pub met_again : Place → Finding → Finding
met_again p f = record f {
  count = f.count + 1;
  first_at = min f.first_at p.time;
  last_at = max f.last_at p.time;
}

-- The findings, each of which carries its key.
unfoldable pub note_match : Place → Match → List Finding → List Finding
unfolding beq
note_match p m [] = first_finding p m ∷ []
note_match p m (f ∷ fs) = if is_at p m f then met_again p f ∷ fs else f ∷ note_match p m fs

unfoldable pub note_matches : Place → List Match → List Finding → List Finding
unfolding note_match
note_matches p [] fs = fs
note_matches p (m ∷ ms) fs = note_matches p ms (note_match p m fs)

pub record Scanner : Type 0 where
  pub scanned : ℕ
  pub lines_scanned : ℕ
  pub spans_scanned : ℕ
  pub agg : List Finding
  pub detectors : List Detector

-- NewScannerWith: the custom detectors run last.
unfoldable pub new_scanner_with : List Detector → List Detector → Scanner
new_scanner_with built_in custom = record {
  scanned = 0;
  lines_scanned = 0;
  spans_scanned = 0;
  agg = [];
  detectors = built_in ++ custom;
}

-- The values at their places, in the order in which they are visited.
unfoldable pub visit_all : List Detector → List (Place × Text) → List Finding → List Finding
unfolding note_matches find_with
visit_all ds [] fs = fs
visit_all ds ((p, value) ∷ visits) fs = visit_all ds visits (note_matches p (find_with ds value) fs)

-- What the scanner takes from outside: json.Unmarshal, url.ParseQuery, and the printing of numbers
-- and of quoted text by fmt.
pub record Readers (F : Type 0) : Type 0 where
  pub decode : Text → Option (Value F)
  pub parse_query : Text → Option (List (Text × List Text))
  pub is_int64 : F → Bool
  pub print_int : F → Text
  pub print_general : F → Text
  pub quote : Text → Text

-- strings.TrimSuffix
abbrev pub trim_suffix : Text → Text → Text
trim_suffix suffix s = reverse (trim_prefix (reverse suffix) (reverse s))

abbrev pub raw_field : Text
raw_field = codes "(raw)"

abbrev pub line_break : ℕ
line_break = 10

abbrev pub bracketed : Text → Text → Text
bracketed name value =
    codes "redact:" ++ line_break ∷ codes "  " ++ name ++ codes ": [" ++ value ++ codes "]"

abbrev pub is_header_location : Text → Bool
is_header_location location =
    beq location (codes "request_headers") || beq location (codes "response_headers")

unfoldable pub suggest : (Text → Text) → Text → Text → Text
unfolding beq trim_prefix
suggest quote location field =
    if beq location (codes "query")
    then bracketed (codes "query_params") field
    else if is_header_location location
    then bracketed (codes "headers") field
    else if beq field raw_field
    then codes "restrict: [" ++ trim_suffix (codes "_body") location ++ codes "_body]"
    else bracketed (codes "json_fields") (quote field)

abbrev pub for_patterns : Text → Text
for_patterns block =
    codes "telemetry:"
    ++ line_break ∷ codes "  "
    ++ block
    ++ codes ":"
    ++ line_break ∷ codes "    redact:"
    ++ line_break ∷ codes "      patterns: ['<a regex matching this value>']"

abbrev pub for_fields : Text → Text → Text
for_fields block field =
    codes "telemetry:"
    ++ line_break ∷ codes "  "
    ++ block
    ++ codes ":"
    ++ line_break ∷ codes "    redact:"
    ++ line_break ∷ codes "      fields: ["
    ++ field
    ++ codes "]"

unfoldable pub suggest_span_attr : Text → Text
unfolding beq
suggest_span_attr field =
    if beq field (codes "error")
    then for_patterns (codes "spans")
    else for_fields (codes "spans") field

unfoldable pub suggest_app_log : Text → Text
unfolding beq
suggest_app_log field =
    if beq field (codes "message")
    then for_patterns (codes "app_logs")
    else for_fields (codes "app_logs") field

-- Report.Counts
abbrev pub count_severity : Text → List Finding → ℕ
count_severity sev [] = 0
count_severity sev (f ∷ fs) =
    let rest = count_severity sev fs in if beq f.severity sev then rest + 1 else rest

-- `rank[sev]` of HasAtLeast: 0 for a name that is not there.
unfoldable pub severity_rank : Text → ℕ
unfolding beq
severity_rank sev =
    if beq sev medium then 1 else if beq sev high then 2 else if beq sev critical then 3 else 0

-- HasAtLeast
unfoldable pub has_at_least : Text → List Finding → Bool
unfolding severity_rank
has_at_least sev fs = any (λ f. leb (severity_rank sev) (severity_rank f.severity)) fs

-- `rank` of Report: 0 also for a name that is not there.
abbrev pub report_rank : Text → ℕ
report_rank sev = if beq sev high then 1 else if beq sev medium then 2 else 0

abbrev pub stands_before : Finding → Finding → Bool
stands_before f g =
    if report_rank f.severity == report_rank g.severity
    then (if f.count == g.count then text_le f.field g.field else ltb g.count f.count)
    else ltb (report_rank f.severity) (report_rank g.severity)

abbrev pub insert_finding : Finding → List Finding → List Finding
insert_finding f [] = f ∷ []
insert_finding f (g ∷ fs) = if stands_before f g then f ∷ g ∷ fs else g ∷ insert_finding f fs

-- The findings of Report, sorted.
unfoldable pub report : List Finding → List Finding
unfolding beq text_le
report [] = []
report (f ∷ fs) = insert_finding f (report fs)
