-- ===== src/Applog/Tests.antt =====
-- Runs of the admission of log lines.
use optictrace.Prelude.{true, false, none, some, [], ◌∷◌, codes, ◌≡◌, refl}
use optictrace.Telcap.{allow}
use optictrace.Applog.{
  AppLog, RoutePolicy, Governor, span_cap, global, resolve, level_rank, normalise_level, scrub,
  cleaned, cap_message, count_line, admit_under, admit,
}
use optictrace.Applog.Tighten.{IsStricter}
use optictrace.Applog.Stored.{IsStorable, admit-IsStorable}

-- The rule for /api/** lowers the cap to one line and masks `token`.
abbrev api : RoutePolicy
api = record {
  segs = codes "api" ∷ codes "**" ∷ [];
  floor = 0;
  max_lines = 1;
  drop = false;
  patterns = [];
  fields = codes "token" ∷ [];
}

abbrev governor : Governor
governor = record {
  enabled = true;
  drop_orphans = true;
  floor = 3;
  max_lines = 5;
  max_bytes = 4;
  patterns = [];
  redact_field = codes "email" ∷ [];
  counter = record { cur = []; prev = []; max_keys = 8 };
  routes = api ∷ [];
}

abbrev line : AppLog
line = record {
  span_id = codes "s1";
  level = codes "WARNING";
  message = codes " retrying ";
  fields = (codes "Token", codes "s3cret") ∷ (codes "attempt", codes "2") ∷ [];
  route = codes "/api/**";
  truncated = false;
}

admitted_line : (admit governor line).reason ≡ none
unfolding admit admit_under resolve level_rank normalise_level cleaned scrub count_line cap_message
    allow
admitted_line = refl

admit-IsStorable_example :
    IsStricter (global governor) (resolve governor line.route)
    × IsStorable governor
        (resolve governor line.route)
        (record line { level = normalise_level line.level })
        (admit governor line).line
admit-IsStorable_example = admit-IsStorable governor line admitted_line

abbrev used_up : Governor
used_up = record governor {
  counter = record { cur = (codes "s1", 1) ∷ []; prev = []; max_keys = 8 };
}

refused_line : (admit used_up line).reason ≡ some span_cap
unfolding admit admit_under resolve level_rank normalise_level cleaned scrub count_line cap_message
    allow
refused_line = refl
