-- ===== src/Review.antt =====
-- internal/review/review.go: how a change of the rules changes the governance of recorded traffic.
mod Tests
pub mod Counts
pub mod Diff
pub mod Verdict
pub mod Regressions
pub mod Remarks
pub mod Loses
use optictrace.Prelude.{
  sort_texts, take, length, ltb, text_le, ℕ, zero, suc, ◌+◌, ◌-◌, Bool, true, false, not, ◌&&◌,
  ◌||◌, Option, none, some, List, [], ◌∷◌, ◌++◌, Text, codes, beq, contains, insert, lookup,
  is_empty, any, leb, ltb, ◌==◌, if◌then◌else◌, map,
}
use optictrace.Floats.{Floats}
use optictrace.Label.{MultiMap}
use optictrace.Policy.{Policy}
use optictrace.Glob.Route.{normalize_route}
use optictrace.Engine.{Engine, Attrs, evaluate_attrs}

-- The fields of store.Record that a review reads.
pub record Record : Type 0 where
  pub method : Text
  pub path : Text
  pub query : Text
  pub request_headers : List (Text × Text)
  pub status : ℕ
  pub route : Text

-- `for k, v := range rec.RequestHeaders { a.Headers.Set(k, v) }`
abbrev pub set_headers : (Text → Text) → List (Text × Text) → MultiMap → MultiMap
set_headers canonical_key [] h = h
set_headers canonical_key ((k, v) ∷ m) h =
    set_headers canonical_key m (insert (canonical_key k) (v ∷ []) h)

module _ (canonical_key : Text → Text) (parse_query : Text → Option MultiMap) where
  abbrev pub record_headers : List (Text × Text) → Option MultiMap
  record_headers [] = none
  record_headers (e ∷ m) = some (set_headers canonical_key (e ∷ m) [])

  unfoldable pub attrs_of_record : (F : Type 0) → Record → Attrs F
  unfolding insert
  attrs_of_record F rec = record {
    method = rec.method;
    path = rec.path;
    headers = record_headers rec.request_headers;
    query = if is_empty rec.query then none else parse_query rec.query;
    operation = [];
    body = none;
  }

unfoldable pub route_of : {F : Type 0} → Record → Policy F → Text
unfolding normalize_route
route_of rec p =
    if not (is_empty p.route_pattern)
    then p.route_pattern
    else if not (is_empty rec.route)
    then rec.route
    else normalize_route rec.path

-- Without the two counts of fields, which come from the suggestions.
pub record Coverage : Type 0 where
  pub requests : ℕ
  pub governed_requests : ℕ
  pub routes : ℕ
  pub governed_routes : ℕ
  pub ungoverned_routes : List Text
  pub not_found : ℕ

-- What the loop over the records keeps.
pub record Tally : Type 0 where
  pub requests : ℕ
  pub governed_requests : ℕ
  pub not_found : ℕ
  -- The route keys that were seen, each with whether a rule governs it.
  pub routes : List (Text × Bool)

-- `if was, seen := routes[key]; !seen || (!was && governed) { routes[key] = governed }`
abbrev pub mark_route : Option Bool → Text → Bool → List (Text × Bool) → List (Text × Bool)
mark_route none key governed routes = insert key governed routes
mark_route (some was) key governed routes =
    if not was && governed then insert key governed routes else routes

-- The routes that no rule governs, and how many a rule does.
abbrev pub ungoverned : List (Text × Bool) → List Text
ungoverned [] = []
ungoverned ((route, true) ∷ routes) = ungoverned routes
ungoverned ((route, false) ∷ routes) = route ∷ ungoverned routes

abbrev pub governed_count : List (Text × Bool) → ℕ
governed_count [] = 0
governed_count ((route, true) ∷ routes) = governed_count routes + 1
governed_count ((route, false) ∷ routes) = governed_count routes

abbrev pub first_eight : List Text → List Text
first_eight ts = if ltb 8 (length ts) then take 8 ts else ts

unfoldable pub summarize : Tally → Coverage
unfolding sort_texts
summarize t = record {
  requests = t.requests;
  governed_requests = t.governed_requests;
  routes = length t.routes;
  governed_routes = governed_count t.routes;
  ungoverned_routes = first_eight (sort_texts (ungoverned t.routes));
  not_found = t.not_found;
}

module _ {F : Type 0} (ops : Floats F) (canonical_key : Text → Text)
    (parse_query : Text → Option MultiMap) where
  abbrev pub policy_of : Engine F → Record → Policy F
  policy_of eng rec =
      evaluate_attrs ops canonical_key eng (attrs_of_record canonical_key parse_query F rec)

  abbrev pub add_request : Record → Policy F → Tally → Tally
  add_request rec p c =
      let governed = not (is_empty p.matched_rules) in
      let key = rec.method ++ b' ' ∷ route_of rec p in
      record c {
        requests = c.requests + 1;
        governed_requests = if governed then c.governed_requests + 1 else c.governed_requests;
        routes = mark_route (lookup key c.routes) key governed c.routes;
      }

  -- One round of the loop: a 404 is no part of the API surface.
  pub cover_record : Engine F → Record → Tally → Tally
  cover_record eng rec c =
      if rec.status == 404
      then record c { not_found = c.not_found + 1 }
      else add_request rec (policy_of eng rec) c

  pub cover_records : Engine F → List Record → Tally → Tally
  cover_records eng [] c = c
  cover_records eng (rec ∷ records) c = cover_records eng records (cover_record eng rec c)

  abbrev pub no_coverage : Tally
  no_coverage = record { requests = 0; governed_requests = 0; not_found = 0; routes = [] }

  unfoldable pub coverage : Engine F → List Record → Coverage
  unfolding summarize cover_records cover_record evaluate_attrs attrs_of_record route_of lookup
      insert
  coverage eng records = summarize (cover_records eng records no_coverage)
