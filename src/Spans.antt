-- ===== src/Spans.antt =====
-- internal/spans/spans.go: what may be stored of an inner span.
mod Tests
pub mod Verdict
pub mod Scrub
use optictrace.Prelude.{
  ℕ, zero, suc, ℤ, pos, negsuc, Bool, true, false, not, ◌&&◌, ◌||◌, Option, none, some, List, [],
  ◌∷◌, Text, codes, contains, length, is_empty, ltb, ◌==◌, if◌then◌else◌, trim_space, to_lower,
}
use optictrace.Redact.{placeholder}
use optictrace.Telcap.{Counter, new_counter, allow, truncate_utf8}

abbrev pub default_max_per_request : ℕ
default_max_per_request = 200

abbrev pub default_max_attr_bytes : ℕ
default_max_attr_bytes = 4096

pub data Reason : Type 0 where
  orphan too_fast request_cap disabled empty : Reason

-- Durations are nanoseconds; `redact_patterns` and `redact_fields` are cfg.Redact's. `DropOrphans`
-- is a *bool.
pub record SpansCfg : Type 0 where
  pub enabled : Bool
  pub drop_orphans : Option Bool
  pub min_duration : ℕ
  pub max_per_request : ℤ
  pub max_attr_bytes : ℤ
  pub redact_patterns : List Text
  pub redact_fields : List Text

-- A compiled pattern is its ReplaceAllString with the placeholder.
abbrev pub Replacement : Type 0
Replacement = Text → Text

-- A limit of 0 is none.
pub record Governor : Type 0 where
  pub enabled : Bool
  pub drop_orphans : Bool
  pub min_duration : ℕ
  pub max_per : ℕ
  pub max_bytes : ℕ
  pub patterns : List Replacement
  pub redact_attr : List Text
  pub counter : Counter

-- `duration` is what the code computes from DurationMS.
pub record Span : Type 0 where
  pub parent_span_id : Text
  pub name : Text
  pub kind : Text
  pub error : Text
  pub duration : ℕ
  pub attrs : List (Text × Text)
  pub truncated : Bool

-- `if n == 0 { n = default }`, then a negative setting removes the limit.
abbrev pub limit_or : ℕ → ℤ → ℕ
limit_or default (pos zero) = default
limit_or default (pos (suc n)) = suc n
limit_or default (negsuc n) = 0

-- DropOrphanSpans
abbrev pub drop_orphan_spans : Option Bool → Bool
drop_orphan_spans none = true
drop_orphan_spans (some b) = b

unfoldable pub disabled_governor : Governor
unfolding new_counter
disabled_governor = record {
  enabled = false;
  drop_orphans = false;
  min_duration = 0;
  max_per = 0;
  max_bytes = 0;
  patterns = [];
  redact_attr = [];
  counter = new_counter 0;
}

abbrev pub lower_all : List Text → List Text
lower_all [] = []
lower_all (f ∷ fs) = to_lower f ∷ lower_all fs

-- The first pattern that does not compile ends the loop.
abbrev pub compile_all : (Text → Option Replacement) → List Text → Option (List Replacement)
compile_all compile [] = some []
compile_all compile (pat ∷ pats) = elim (compile pat) [
  | none ↦ none
  | some re ↦ elim (compile_all compile pats) [ none ↦ none | some rest ↦ some (re ∷ rest) ]
]

abbrev pub governor_with : SpansCfg → Option (List Replacement) → Option Governor
governor_with cfg none = none
governor_with cfg (some patterns) = some (record {
  enabled = true;
  drop_orphans = drop_orphan_spans cfg.drop_orphans;
  min_duration = cfg.min_duration;
  max_per = limit_or default_max_per_request cfg.max_per_request;
  max_bytes = limit_or default_max_attr_bytes cfg.max_attr_bytes;
  patterns = patterns;
  redact_attr = lower_all cfg.redact_fields;
  counter = new_counter 0;
})

-- `none` in the result is an error.
unfoldable pub new : (Text → Option Replacement) → Option SpansCfg → Option Governor
unfolding disabled_governor
new compile none = some disabled_governor
new compile (some cfg) =
    if cfg.enabled
    then governor_with cfg (compile_all compile cfg.redact_patterns)
    else some disabled_governor

abbrev pub replace_all : List Replacement → Text → Text
replace_all [] v = v
replace_all (re ∷ res) v = replace_all res (re v)

-- The cleaned value, and whether it was truncated.
unfoldable pub clean : Governor → Text → Text × Bool
unfolding truncate_utf8
clean g v =
    if is_empty v
    then (v, false)
    else (let w = replace_all g.patterns v in
        if not (g.max_bytes == 0) && ltb g.max_bytes (length w)
        then (truncate_utf8 w g.max_bytes, true)
        else (w, false))

abbrev pub scrub_attr : Governor → Text → Text → Text × Bool
scrub_attr g k v = if contains g.redact_attr (to_lower k) then (placeholder, false) else clean g v

abbrev pub scrub_attrs : Governor → List (Text × Text) → List (Text × Text)
scrub_attrs g [] = []
scrub_attrs g ((k, v) ∷ as') = (k, (scrub_attr g k v).0) ∷ scrub_attrs g as'

abbrev pub any_truncated : Governor → List (Text × Text) → Bool
any_truncated g [] = false
any_truncated g ((k, v) ∷ as') = (scrub_attr g k v).1 || any_truncated g as'

unfoldable pub scrub : Governor → Span → Span
unfolding clean
scrub g s = record s {
  error = (clean g s.error).0;
  attrs = scrub_attrs g s.attrs;
  truncated = s.truncated || (clean g s.error).1 || any_truncated g s.attrs;
}

-- `s.Name = TrimSpace(s.Name); s.Kind = ToLower(TrimSpace(s.Kind))`
unfoldable pub tidy : Span → Span
tidy s = record s { name = trim_space s.name; kind = to_lower (trim_space s.kind) }

-- `none` is the admission; the span and the counter come back as the call leaves them.
pub record Admission : Type 0 where
  pub span : Span
  pub governor : Governor
  pub reason : Option Reason

abbrev pub with_counter : Governor → Span → Counter × Bool → Admission
with_counter g s (c, true) = record { span = s; governor = record g { counter = c }; reason = none }
with_counter g s (c, false) = record {
  span = s;
  governor = record g { counter = c };
  reason = some request_cap;
}

-- The cap: a span without a parent is not counted.
unfoldable pub count_span : Governor → Span → Admission
count_span g s =
    if is_empty s.parent_span_id
    then record { span = s; governor = g; reason = none }
    else with_counter g s (allow g.counter s.parent_span_id g.max_per)

unfoldable pub is_too_fast : Governor → Span → Bool
is_too_fast g s = ltb 0 g.min_duration && is_empty s.error && ltb s.duration g.min_duration

unfoldable pub admit : Governor → Span → Admission
admit g s =
    if not g.enabled
    then record { span = s; governor = g; reason = some disabled }
    else if is_empty (tidy s).name
    then record { span = tidy s; governor = g; reason = some empty }
    else if is_empty (tidy s).parent_span_id && g.drop_orphans
    then record { span = tidy s; governor = g; reason = some orphan }
    else if is_too_fast g (tidy s)
    then record { span = tidy s; governor = g; reason = some too_fast }
    else count_span g (scrub g (tidy s))
