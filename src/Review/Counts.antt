-- ===== src/Review/Counts.antt =====
-- internal/review/review.go, coverage: its counts.
use optictrace.Prelude.{
  sort_texts, length-sort_texts, refl, lengths, ℕ, ◌+◌, ◌≤◌, ◌≡◌, Bool, true, false, List, [], ◌∷◌,
  Text, length, ◌==◌, if◌then◌else◌, Bool-cases, inl, inr, arith, Option,
}
use optictrace.Floats.{Floats}
use optictrace.Label.{MultiMap}
use optictrace.Engine.{Engine}
use optictrace.Review.{
  ungoverned, governed_count, first_eight, summarize, Record, Tally, cover_record, cover_records,
  coverage, no_coverage,
}

abbrev pub one_if : Bool → ℕ
one_if true = 1
one_if false = 0

-- The records that were answered with a 404.
abbrev pub not_found_count : List Record → ℕ
not_found_count [] = 0
not_found_count (rec ∷ records) = one_if (rec.status == 404) + not_found_count records

module _ {F : Type 0} (ops : Floats F) (canonical_key : Text → Text)
    (parse_query : Text → Option MultiMap) (eng : Engine F) where
  governed_le : (b : Bool) (g r : ℕ) → g ≤ r → (if b then g + 1 else g) ≤ r + 1
  governed_le true g r h = omega arith
  governed_le false g r h = omega arith

  round_counts :
      (rec : Record) (c : Tally)
      → let d = cover_record ops canonical_key parse_query eng rec c in
        let m = one_if (rec.status == 404) in
        (d.not_found ≡ c.not_found + m)
        × (d.requests + m ≡ c.requests + 1)
        × (c.governed_requests ≤ c.requests → d.governed_requests ≤ d.requests)
  unfolding cover_record
  round_counts rec c = elim (Bool-cases (rec.status == 404)) [
    | inl e ↦ rw e (omega arith, omega arith, λ h. h)
    | inr e ↦ rw e (omega arith, omega arith, λ h. governed_le _ _ _ h)
  ]

  counts :
      (records : List Record) (c : Tally)
      → let d = cover_records ops canonical_key parse_query eng records c in
        (d.not_found ≡ c.not_found + not_found_count records)
        × (d.requests + not_found_count records ≡ c.requests + length records)
        × (c.governed_requests ≤ c.requests → d.governed_requests ≤ d.requests)
  unfolding cover_records
  counts [] c = (omega arith, omega arith, λ h. h)
  counts (rec ∷ records) c =
      let (n, r, g) = round_counts rec c in
      let (ns, rs, gs) = counts records (cover_record ops canonical_key parse_query eng rec c) in
      (omega arith, omega arith, λ h. gs (g h))

routes_split :
    (routes : List (Text × Bool))
    → governed_count routes + length (ungoverned routes) ≡ length routes
routes_split [] = refl
routes_split ((route, true) ∷ routes) = omega (arith, routes_split routes)
routes_split ((route, false) ∷ routes) = omega (arith, routes_split routes)

first_eight_le : (ts : List Text) → length (first_eight ts) ≤ 8
first_eight_le ts = grind lengths

first_eight_all : (ts : List Text) → length ts ≤ 8 → first_eight ts ≡ ts
first_eight_all ts h = ground arith

summarize_routes :
    (t : Tally)
    → let c = summarize t in
      (length c.ungoverned_routes ≤ 8)
      × (c.routes ≤ c.governed_routes + 8
          → c.governed_routes + length c.ungoverned_routes ≡ c.routes)
unfolding summarize
summarize_routes t =
    let sorted = length-sort_texts (ungoverned t.routes) in
    let split = routes_split t.routes in
    (
      first_eight_le (sort_texts (ungoverned t.routes)),
      λ h. rw (first_eight_all (sort_texts (ungoverned t.routes)) (omega arith)) (omega arith),
    )

-- A coverage counts every record once, as a request or as answered with a 404, and no more
-- governed requests than requests; it lists at most eight ungoverned routes, and all of them, so
-- that they and the governed ones make up the routes, if there are no more than eight.
pub coverage_counts :
    {F : Type 0} (ops : Floats F) (canonical_key : Text → Text)
    (parse_query : Text → Option MultiMap) (eng : Engine F) (records : List Record)
    → let c = coverage ops canonical_key parse_query eng records in
      (c.not_found ≡ not_found_count records)
      × (c.requests + c.not_found ≡ length records)
      × (c.governed_requests ≤ c.requests)
      × (length c.ungoverned_routes ≤ 8)
      × (c.routes ≤ c.governed_routes + 8
          → c.governed_routes + length c.ungoverned_routes ≡ c.routes)
unfolding coverage summarize
coverage_counts ops canonical_key parse_query eng records =
    let (n, r, g) =
      counts ops canonical_key parse_query eng records
        (no_coverage ops canonical_key parse_query) in
    let t =
      cover_records ops canonical_key parse_query eng records
        (no_coverage ops canonical_key parse_query) in
    let (short, split) = summarize_routes t in
    (omega arith, omega arith, g (omega arith), short, split)
