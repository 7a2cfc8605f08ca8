-- ===== src/Applog/New.antt =====
-- internal/applog/applog.go, New and WithRules: the governor of a configuration.
use optictrace.Prelude.{
  ℕ, ℤ, pos, negsuc, Bool, true, false, Option, none, some, List, [], ◌∷◌, ◌++◌, Text,
  if◌then◌else◌,
}
use optictrace.Glob.{split_path}
use optictrace.Config.Rules.{Rule, RuleLogs}
use optictrace.Telcap.{new_counter}
use optictrace.Spans.{Replacement, compile_all, lower_all, limit_or}
use optictrace.Applog.{
  AppLogsCfg, RoutePolicy, Governor, default_max_lines_per_span, default_max_message_bytes,
  floor_of, level_rank,
}

-- DropOrphanLines
abbrev pub drop_orphan_lines : Option Bool → Bool
drop_orphan_lines none = true
drop_orphan_lines (some b) = b

unfoldable pub disabled_governor : Governor
unfolding new_counter
disabled_governor = record {
  enabled = false;
  drop_orphans = false;
  floor = 0;
  max_lines = 0;
  max_bytes = 0;
  patterns = [];
  redact_field = [];
  counter = new_counter 4096;
  routes = [];
}

abbrev pub governor_with : AppLogsCfg → Option (List Replacement) → Option Governor
governor_with cfg none = none
governor_with cfg (some patterns) = some (record {
  enabled = true;
  drop_orphans = drop_orphan_lines cfg.drop_orphans;
  floor = floor_of cfg.level_min;
  max_lines = limit_or default_max_lines_per_span cfg.max_lines_per_span;
  max_bytes = limit_or default_max_message_bytes cfg.max_message_bytes;
  patterns = patterns;
  redact_field = lower_all cfg.fields;
  counter = new_counter 4096;
  routes = [];
})

-- `none` in the result is an error.
unfoldable pub new : (Text → Option Replacement) → Option AppLogsCfg → Option Governor
unfolding disabled_governor level_rank
new compile none = some disabled_governor
new compile (some cfg) =
    if cfg.enabled
    then governor_with cfg (compile_all compile cfg.patterns)
    else some disabled_governor

-- A limit that is not above zero is no override.
abbrev pub override_of : ℤ → ℕ
override_of (pos n) = n
override_of (negsuc n) = 0

abbrev pub route_policy : Text → RuleLogs → Option (List Replacement) → Option RoutePolicy
route_policy path l none = none
route_policy path l (some patterns) = some (record {
  segs = split_path path;
  floor = floor_of l.level_min;
  max_lines = override_of l.max_lines_per_span;
  drop = l.drop;
  patterns = patterns;
  fields = lower_all l.fields;
})

-- The routes up to the first rule with a pattern that does not compile, and whether there is none.
abbrev pub and_then : Option RoutePolicy → List RoutePolicy × Bool → List RoutePolicy × Bool
and_then none rest = ([], false)
and_then (some rp) (rps, ok) = (rp ∷ rps, ok)

abbrev pub with_logs :
    (Text → Option Replacement)
    → Text
    → Option RuleLogs
    → List RoutePolicy × Bool
    → List RoutePolicy × Bool
with_logs compile path none rest = rest
with_logs compile path (some l) rest =
    and_then (route_policy path l (compile_all compile l.patterns)) rest

abbrev pub route_policies :
    {F : Type 0} → (Text → Option Replacement) → List (Rule F) → List RoutePolicy × Bool
route_policies compile [] = ([], true)
route_policies compile (r ∷ rules) =
    with_logs compile r.match.path r.logs (route_policies compile rules)

-- `false` is an error, which leaves the routes before it in the governor.
unfoldable pub with_rules :
    {F : Type 0} → (Text → Option Replacement) → Governor → List (Rule F) → Governor × Bool
unfolding split_path level_rank
with_rules compile g rules =
    let (rps, ok) = route_policies compile rules in (record g { routes = g.routes ++ rps }, ok)
