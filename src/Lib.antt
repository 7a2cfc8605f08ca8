-- ===== src/Lib.antt =====
-- OpticTrace: which telemetry of an API call may be kept, and with what masked.
--
-- A configuration (optic.yaml) lists rules. Each rule has a path glob and conditions, and says which
-- channels not to capture, what to redact, which labels and meters to take and how to sample. The
-- engine compiles the rules and resolves, for one request, a policy; the recorder then stores headers,
-- query and bodies under that policy, through a queue that a worker drains into the store. Inner spans
-- and application log lines pass governors of their own, which share the counter and the truncation of
-- telcap. A review replays recorded traffic against two configurations and reports what changed.
--
-- The parts, each with its file here and the code that it models:
--
--   Json, Redact      internal/engine/redact.go: redactPath on decoded documents. Redact.Addressed says
--                     independently which values a path addresses, `**` standing for zero or more levels,
--                     and Redact.Reached which of them redactPath reaches: all, unless the path ends in
--                     `**`. The other child modules of Redact relate these to the code.
--   Extract           internal/engine/redact.go: FirstString (first_string) and sumNumeric (sum_numeric).
--   Glob              internal/engine/engine.go: splitPath, matchSegments. Glob.Segment is path.Match of
--                     the standard library, Glob.Route is NormalizeRoute.
--   Label, Config     internal/config/config.go: LabelSource with Value and ValueFromBody, and
--                     ParseLabelSource. Config.Rules: Rule and Rule.validate. Config.Telemetry: the
--                     telemetry block and the checks of its parts. Config.Validate: Validate, with the
--                     defaults that it fills in. Config.Defaults: applyTelemetryDefaults and Parse.
--   Policy            internal/engine/engine.go: Policy with CapturesAnything, TailSampled, KeepBody.
--   Engine            internal/engine/engine.go: evaluate and its entry points. Engine.New is New,
--                     Engine.Needs are BodyRulePaths and the other questions about the rules,
--                     Engine.Body, Engine.Sanitize and Engine.Meters are RedactJSONBody, SanitizeHeaders,
--                     SanitizeQuery and ExtractMeters of internal/engine/redact.go.
--   Telcap            internal/telcap/telcap.go: Counter with Allow, and TruncateUTF8.
--   Spans             internal/spans/spans.go: Governor with Admit, scrub and clean.
--   Trace             internal/tracectx/tracectx.go: Context with Header, FromHeader, FromMap.
--   Applog            internal/applog/applog.go: Governor with WithRules, resolve, Admit and scrub, and the
--                     levels of ext/applog.go. Applog.New is New and WithRules.
--   Review            internal/review/review.go: coverage, routeOf, attrsOfRecord. Review.Diff is
--                     diffPolicies, Review.Verdict is Blocking with the counts that it reads.
--   Async             internal/store/async.go: AsyncWriter, whose Enqueue, worker, ticker and Close are the
--                     steps of the relation Run.
--   Metrics           internal/metrics/metrics.go: Collector with Observe, SetLabelKeys and guard, as the
--                     list of the calls that it makes on the Prometheus vectors.
--   Spec              internal/spec/model.go: Schema and the document. Spec.Merge, Spec.Paths and
--                     Spec.Infer are internal/spec/infer.go: mergeSchemas, openAPIPath, Inferrer.
--                     Spec.Fields is the look-up of model.go, Spec.Uses and Spec.Check are
--                     internal/spec/check.go: walkJSONFields, Check and HasBreaking.
--   Scan              internal/scan/detect.go: FindWith and Mask. Scan.Verify are the checksums,
--                     Scan.Scanner and Scan.Walk internal/scan/scan.go: Scanner with Add and Report.
--                     NewDetector of internal/scan/custom.go is new_detector.
--   Export            internal/export/export.go: Dispatcher with Enqueue, EnqueueAppLog, Shutdown and the
--                     worker of run, each arm of its select a step.
--   Graphql           internal/proxy/graphql.go: graphQLOperation, parseOperationName and
--                     sanitizeOperationName.
--   Prelude, Floats   what these share. Samples and the modules named Tests: runs on concrete data.
--
-- Conventions. A Go map is an association list; where the code ranges over one, the model goes through
-- the list in its order, so that a theorem about every list covers every order of the range. A nil map
-- and an unread body are `none`. The mutation of a document, a span or a counter is the value that the
-- function hands back. A text is the list of its bytes, and in Graphql, once decoded, the list of its
-- runes. Numbers of the code that are never negative are natural numbers; a setting that may be
-- negative is an `ℤ`. A duration is its nanoseconds, and one that is not above zero is zero.
--
-- Fuel. redact_fuel takes one from its fuel for each level of the document and for each segment of the
-- path, and redact_path gives the depth of the document plus the length of the path: each call goes
-- down one level or drops one segment, so that this is enough. In Glob.Segment one token takes at
-- least one byte of the pattern and one range at least one byte of the class, and the length is given.
-- schema_within, walk_json, walk and walk_fields count down from 13, since the code stops above a
-- depth of 12; resolve_within follows at most ten references, as Resolve does. itoa has one more than
-- the number as its fuel. All other recursion is structural.
--
-- What stands outside. float64 with its printing is the record Floats; encoding/json is the record
-- Codec, with the hypothesis RoundTrips that an encoded document decodes to itself; net/url is the
-- record Urls; regexp.Compile, time.ParseDuration and the canonical form of header names are the record
-- Tools; random ids are arguments. The record Outside has what Validate asks of net, url, os and the
-- registries; Decoders and Readers are JSON and query decoding for Spec and Scan. A Pattern is what a
-- compiled regular expression does. Whether an exporter's n-th batch succeeds is an argument.
-- Unicode has package unicode beyond ASCII, and the float constants of the default buckets come from
-- their digits by an argument. path.Match is written out for single bytes, since `?` and classes
-- take whole runes only in text that is not ASCII. Case folding is that of ASCII.
--
-- Not modelled: locks (each call is one step), YAML, HTTP handling, stores, the exporters behind their
-- queues, the command line and the generators of code, which do input and output around the parts
-- above; the rule tests, the suggestions and the list of settings that need a restart; the
-- regular-expression engine.
pub mod Prelude
pub mod Floats
pub mod Samples
pub mod Json
pub mod Redact
pub mod Extract
pub mod Glob
pub mod Label
pub mod Config
pub mod Policy
pub mod Engine
pub mod Telcap
pub mod Spans
pub mod Applog
pub mod Async
pub mod Trace
pub mod Graphql
pub mod Review
pub mod Metrics
pub mod Spec
pub mod Scan
pub mod Export
