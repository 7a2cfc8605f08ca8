-- ===== src/Review/Tests.antt =====
-- A run of the coverage.
use optictrace.Prelude.{
  refl, contains, ℕ, ◌+◌, ◌≤◌, true, false, beq, Option, none, List, [], ◌∷◌, Text, codes, length,
  ◌≡◌,
}
use optictrace.Engine.{Engine, evaluate_attrs}
use optictrace.Engine.New.{new}
use optictrace.Glob.{match_segments}
use optictrace.Review.{Record, attrs_of_record, route_of, coverage}
use optictrace.Review.Counts.{not_found_count, coverage_counts}
use optictrace.Review.Diff.{all_notes, remarks_of, note_key}
use optictrace.Review.Verdict.{blocks}
use optictrace.Review.Loses.{any_loses, is_consistent, changes, blocks-lost}
use optictrace.Label.{MultiMap}
use optictrace.Samples.{whole_numbers, same_key, tools, defaults, login_rule}

abbrev engine : Engine ℕ
engine = new tools defaults (login_rule ∷ [])

abbrev no_query : Text → Option MultiMap
no_query raw = none

abbrev call : Text → ℕ → Record
call path status = record {
  method = codes "POST";
  path = path;
  query = [];
  request_headers = [];
  status = status;
  route = [];
}

abbrev records : List Record
records = call (codes "/api/login") 200 ∷ call (codes "/health") 200 ∷ call (codes "/x") 404 ∷ []

coverage_counts_example :
    let c = coverage whole_numbers same_key no_query engine records in
    (c.not_found ≡ not_found_count records)
    × (c.requests + c.not_found ≡ length records)
    × (c.governed_requests ≤ c.requests)
    × (length c.ungoverned_routes ≤ 8)
    × (c.routes ≤ c.governed_routes + 8 → c.governed_routes + length c.ungoverned_routes ≡ c.routes)
coverage_counts_example = coverage_counts whole_numbers same_key no_query engine records

-- The same service without its rule.
abbrev ungoverned : Engine ℕ
ungoverned = new tools defaults []

kept : any_loses whole_numbers same_key no_query ungoverned engine records ≡ false
unfolding new evaluate_attrs
kept = refl

lost : any_loses whole_numbers same_key no_query engine ungoverned records ≡ true
unfolding new evaluate_attrs contains attrs_of_record match_segments
lost = refl

consistent :
    is_consistent (all_notes whole_numbers same_key no_query engine ungoverned records) ≡ true
unfolding new evaluate_attrs remarks_of attrs_of_record match_segments note_key route_of
consistent = refl

not_never : beq (codes "regression") (codes "never") ≡ false
unfolding beq
not_never = refl

blocks-lost_example :
    blocks
      (record {
        policy_changes = changes whole_numbers same_key no_query engine ungoverned records;
        leaks = [];
        spec_findings = [];
      })
      (codes "regression")
    ≡ true
blocks-lost_example =
    blocks-lost whole_numbers same_key no_query engine ungoverned records [] [] (codes "regression")
      lost consistent not_never
