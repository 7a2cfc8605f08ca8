-- ===== src/Scan/Counted.antt =====
-- internal/scan/scan.go: every match is in the report, once.
use optictrace.Prelude.{ℕ, ◌+◌, List, [], ◌∷◌, Text, length, ◌≡◌, refl, arith}
use optictrace.Scan.{Detector, Match, find_with}
use optictrace.Scan.Scanner.{
  Finding, Place, Scanner, note_match, note_matches, visit_all, insert_finding, report, Readers,
}
use optictrace.Scan.Walk.{Record, visits_of, add}

-- All matches that the findings stand for.
unfoldable pub total : List Finding → ℕ
total [] = 0
total (f ∷ fs) = f.count + total fs

abbrev pub matches_in : List Detector → List (Place × Text) → ℕ
matches_in ds [] = 0
matches_in ds ((p, value) ∷ visits) = length (find_with ds value) + matches_in ds visits

total-note_match :
    (p : Place) (m : Match) (fs : List Finding) → total (note_match p m fs) ≡ total fs + 1
unfolding note_match total
total-note_match p m [] = omega arith
total-note_match p m (f ∷ fs) = ground (arith, total-note_match p m fs)

total-note_matches :
    (p : Place) (ms : List Match) (fs : List Finding)
    → total (note_matches p ms fs) ≡ total fs + length ms
unfolding note_matches
total-note_matches p [] fs = omega arith
total-note_matches p (m ∷ ms) fs =
    omega (arith, total-note_matches p ms (note_match p m fs), total-note_match p m fs)

total-visit_all :
    (ds : List Detector) (visits : List (Place × Text)) (fs : List Finding)
    → total (visit_all ds visits fs) ≡ total fs + matches_in ds visits
unfolding visit_all
total-visit_all ds [] fs = omega arith
total-visit_all ds ((p, value) ∷ visits) fs = omega (
  arith,
  total-visit_all ds visits (note_matches p (find_with ds value) fs),
  total-note_matches p (find_with ds value) fs,
)

total-insert_finding :
    (f : Finding) (fs : List Finding) → total (insert_finding f fs) ≡ f.count + total fs
unfolding total
total-insert_finding f [] = refl
total-insert_finding f (g ∷ fs) = ground (arith, total-insert_finding f fs)

total-report : (fs : List Finding) → total (report fs) ≡ total fs
unfolding report total
total-report [] = refl
total-report (f ∷ fs) = omega (arith, total-insert_finding f (report fs), total-report fs)

module _ {F : Type 0} (r : Readers F) where
  -- The counts of the findings grow by the number of matches in the record.
  pub total-report_add :
      (s : Scanner) (rec : Record)
      → total (report (add r s rec).agg)
        ≡ total (report s.agg) + matches_in s.detectors (visits_of r rec)
  unfolding add
  total-report_add s rec = omega (
    arith,
    total-report (visit_all s.detectors (visits_of r rec) s.agg),
    total-report s.agg,
    total-visit_all s.detectors (visits_of r rec) s.agg,
  )
