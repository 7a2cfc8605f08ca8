-- ===== src/Applog.antt =====
-- internal/applog/applog.go: what may be stored of an application's own log lines, with the levels of
-- ext/applog.go.
mod Tests
pub mod New
pub mod Tighten
pub mod Stored
use optictrace.Prelude.{
  ℕ, zero, suc, ◌+◌, ℤ, pos, negsuc, Bool, true, false, not, ◌&&◌, ◌||◌, Option, none, some, List,
  [], ◌∷◌, ◌++◌, Text, codes, beq, contains, length, is_empty, ltb, leb, ◌==◌, if◌then◌else◌,
  join_by, trim_space, to_lower,
}
use optictrace.Redact.{placeholder}
use optictrace.Glob.{slash, split_path, match_segments}
use optictrace.Config.Rules.{Rule, RuleLogs}
use optictrace.Telcap.{Counter, new_counter, allow, truncate_utf8}
use optictrace.Spans.{Replacement, replace_all, compile_all, lower_all, limit_or}

abbrev pub default_max_lines_per_span : ℕ
default_max_lines_per_span = 200

abbrev pub default_max_message_bytes : ℕ
default_max_message_bytes = 8192

pub data Reason : Type 0 where
  orphan level span_cap disabled empty rule_drop : Reason

-- ext.AppLog, as far as the admission reads or changes it.
pub record AppLog : Type 0 where
  pub span_id : Text
  pub level : Text
  pub message : Text
  pub fields : List (Text × Text)
  pub route : Text
  pub truncated : Bool

pub record AppLogsCfg : Type 0 where
  pub enabled : Bool
  pub level_min : Text
  pub max_lines_per_span : ℤ
  pub max_message_bytes : ℤ
  pub drop_orphans : Option Bool
  pub patterns : List Text
  pub fields : List Text

-- A floor of 0 is the rank -1, none; a floor of `n + 1` is the rank `n`. A limit of 0 is none.
pub record RoutePolicy : Type 0 where
  pub segs : List Text
  pub floor : ℕ
  pub max_lines : ℕ
  pub drop : Bool
  pub patterns : List Replacement
  pub fields : List Text

pub record Governor : Type 0 where
  pub enabled : Bool
  pub drop_orphans : Bool
  pub floor : ℕ
  pub max_lines : ℕ
  pub max_bytes : ℕ
  pub patterns : List Replacement
  pub redact_field : List Text
  pub counter : Counter
  pub routes : List RoutePolicy

pub record Effective : Type 0 where
  pub floor : ℕ
  pub max_lines : ℕ
  pub drop : Bool
  pub patterns : List Replacement
  pub fields : List Text

abbrev pub rank_of : List (List Text) → ℕ → Text → ℕ
rank_of [] n s = n
rank_of (names ∷ rest) n s = if contains names s then n else rank_of rest (suc n) s

abbrev pub ranked_names : List (List Text)
ranked_names =
    (codes "trace" ∷ [])
    ∷ (codes "debug" ∷ [])
    ∷ (codes "info" ∷ codes "information" ∷ codes "notice" ∷ [] ∷ [])
    ∷ (codes "warn" ∷ codes "warning" ∷ [])
    ∷ (codes "error" ∷ codes "err" ∷ [])
    ∷ (codes "fatal" ∷ codes "critical" ∷ codes "crit" ∷ codes "panic" ∷ [])
    ∷ []

-- LevelRank: an unknown level ranks above every known one.
unfoldable pub level_rank : Text → ℕ
unfolding contains to_lower trim_space
level_rank s = rank_of ranked_names 0 (to_lower (trim_space s))

abbrev pub canonical_level : Text → Text
canonical_level l =
    if beq l (codes "warning")
    then codes "warn"
    else if beq l (codes "err")
    then codes "error"
    else if contains (codes "information" ∷ codes "notice" ∷ []) l
    then codes "info"
    else if contains (codes "critical" ∷ codes "crit" ∷ codes "panic" ∷ []) l
    then codes "fatal"
    else if is_empty l
    then codes "info"
    else l

unfoldable pub normalise_level : Text → Text
unfolding beq contains to_lower trim_space
normalise_level s = canonical_level (to_lower (trim_space s))

abbrev pub floor_of : Text → ℕ
floor_of level_min = if is_empty level_min then 0 else suc (level_rank level_min)

unfoldable pub is_for : RoutePolicy → Text → Bool
unfolding beq join_by split_path match_segments
is_for rp route =
    beq route (slash ∷ join_by slash rp.segs) || match_segments rp.segs (split_path route)

-- Tighten only: a higher floor and a lower cap.
abbrev pub tighten : RoutePolicy → Effective → Effective
tighten rp eff = record {
  floor = if ltb eff.floor rp.floor then rp.floor else eff.floor;
  max_lines =
      if ltb 0 rp.max_lines && (eff.max_lines == 0 || ltb rp.max_lines eff.max_lines)
      then rp.max_lines
      else eff.max_lines;
  drop = eff.drop || rp.drop;
  patterns = eff.patterns ++ rp.patterns;
  fields = eff.fields ++ rp.fields;
}

unfoldable pub tighten_all : Text → List RoutePolicy → Effective → Effective
unfolding is_for
tighten_all route [] eff = eff
tighten_all route (rp ∷ rps) eff =
    tighten_all route rps (if is_for rp route then tighten rp eff else eff)

abbrev pub global : Governor → Effective
global g = record {
  floor = g.floor;
  max_lines = g.max_lines;
  drop = false;
  patterns = g.patterns;
  fields = g.redact_field;
}

unfoldable pub resolve : Governor → Text → Effective
unfolding tighten_all
resolve g route =
    if is_empty route || is_empty g.routes then global g else tighten_all route g.routes (global g)

abbrev pub scrub_fields : Effective → List (Text × Text) → List (Text × Text)
scrub_fields eff [] = []
scrub_fields eff ((k, v) ∷ fs) =
    (k, if contains eff.fields (to_lower k) then placeholder else replace_all eff.patterns v)
    ∷ scrub_fields eff fs

unfoldable pub scrub : Effective → AppLog → AppLog
unfolding contains to_lower
scrub eff l = record l {
  message = replace_all eff.patterns l.message;
  fields = scrub_fields eff l.fields;
}

unfoldable pub cap_message : Governor → AppLog → AppLog
unfolding truncate_utf8
cap_message g l =
    if ltb 0 g.max_bytes && ltb g.max_bytes (length l.message)
    then record l { message = truncate_utf8 l.message g.max_bytes; truncated = true }
    else l

-- `none` is the admission; the line and the counter come back as the call leaves them.
pub record Admission : Type 0 where
  pub line : AppLog
  pub governor : Governor
  pub reason : Option Reason

abbrev pub with_counter : Governor → AppLog → Counter × Bool → Admission
with_counter g l (c, true) = record { line = l; governor = record g { counter = c }; reason = none }
with_counter g l (c, false) = record {
  line = l;
  governor = record g { counter = c };
  reason = some span_cap;
}

unfoldable pub count_line : Governor → Effective → AppLog → Admission
count_line g eff l =
    if is_empty l.span_id || eff.max_lines == 0
    then record { line = l; governor = g; reason = none }
    else with_counter g l (allow g.counter l.span_id eff.max_lines)

-- `l.Message = strings.TrimSpace(l.Message)`, after the redaction.
unfoldable pub cleaned : Effective → AppLog → AppLog
cleaned eff l = let s = scrub eff l in record s { message = trim_space s.message }

unfoldable pub admit_under : Governor → Effective → AppLog → Admission
admit_under g eff l =
    if eff.drop
    then record { line = l; governor = g; reason = some rule_drop }
    else if ltb 0 eff.floor && ltb (suc (level_rank l.level)) eff.floor
    then record { line = l; governor = g; reason = some level }
    else if is_empty (cleaned eff l).message && is_empty (cleaned eff l).fields
    then record { line = cleaned eff l; governor = g; reason = some empty }
    else count_line g eff (cap_message g (cleaned eff l))

abbrev pub levelled : AppLog → AppLog
levelled l = record l { level = normalise_level l.level }

unfoldable pub admit : Governor → AppLog → Admission
admit g l =
    if not g.enabled
    then record { line = l; governor = g; reason = some disabled }
    else if is_empty l.span_id && g.drop_orphans
    then record { line = levelled l; governor = g; reason = some orphan }
    else admit_under g (resolve g l.route) (levelled l)
