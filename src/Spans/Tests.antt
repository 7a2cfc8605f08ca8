-- ===== src/Spans/Tests.antt =====
-- Runs of the admission of spans.
use optictrace.Prelude.{true, false, none, some, [], ◌∷◌, codes, trim_space, ◌≡◌, refl}
use optictrace.Telcap.{allow}
use optictrace.Spans.{Governor, Span, request_cap, tidy, scrub, is_too_fast, count_span, admit}
use optictrace.Spans.Scrub.{IsScrubbed, admit-IsScrubbed}

abbrev governor : Governor
governor = record {
  enabled = true;
  drop_orphans = true;
  min_duration = 100;
  max_per = 1;
  max_bytes = 4;
  patterns = [];
  redact_attr = codes "token" ∷ [];
  counter = record { cur = []; prev = []; max_keys = 8 };
}

abbrev query : Span
query = record {
  parent_span_id = codes "p1";
  name = codes " SELECT ";
  kind = codes "DB";
  error = codes "timeout";
  duration = 5;
  attrs = (codes "Token", codes "s3cret") ∷ (codes "table", codes "orders") ∷ [];
  truncated = false;
}

admitted : (admit governor query).reason ≡ none
unfolding admit tidy trim_space is_too_fast count_span scrub allow
admitted = refl

admit-IsScrubbed_example : IsScrubbed governor query (admit governor query).span
admit-IsScrubbed_example = admit-IsScrubbed governor query admitted

abbrev full : Governor
full = record governor { counter = record { cur = (codes "p1", 1) ∷ []; prev = []; max_keys = 8 } }

capped : (admit full query).reason ≡ some request_cap
unfolding admit tidy trim_space is_too_fast count_span scrub allow
capped = refl
