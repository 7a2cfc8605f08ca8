-- ===== src/Review/Loses.antt =====
-- internal/review/review.go, diffPolicies and Blocking: lost redactions.
use optictrace.Prelude.{
  ◌<◌, Bool, true, false, not, ◌||◌, Option, List, [], ◌∷◌, Text, codes, beq, beq_refl, lookup, any,
  any-append, every, ◌≡◌, refl, ◌∙◌, arith, Bool-cases, inl, inr,
}
use optictrace.Floats.{Floats}
use optictrace.Label.{MultiMap}
use optictrace.Engine.{Engine}
use optictrace.Review.{Record, policy_of, route_of}
use optictrace.Review.Diff.{
  PolicyChange, Note, Remark, note_key, add_notes, remarks_of, notes_with, record_notes, all_notes,
  diff_policies,
}
use optictrace.Review.Verdict.{is_blocking, count_blocking, regressions, attributable, blocks}
use optictrace.Review.Regressions.{
  noted_blocking, blocks_at-count, count-add_notes, count-sort_changes, all_blocking,
}
use optictrace.Review.Remarks.{blames, loses, remarks-loses}

abbrev accuses : Note → Bool
accuses n = is_blocking n.severity

any-notes_with :
    (method route : Text) (rs : List Remark)
    → any accuses (notes_with method route rs) ≡ any blames rs
any-notes_with method route [] = refl
any-notes_with method route ((s, w) ∷ rs) = rw (any-notes_with method route rs)

-- Every note that shares its key with a blocking one is blocking.
abbrev pub is_consistent : List Note → Bool
is_consistent notes = every (λ n. not (accuses n) || all_blocking (note_key n) notes) notes

accused :
    (all notes : List Note)
    → any accuses notes ≡ true
    → every (λ n. not (accuses n) || all_blocking (note_key n) all) notes ≡ true
    → (k : Text) × (any (λ m. beq (note_key m) k) notes ≡ true) × (all_blocking k all ≡ true)
accused all [] h c = absurd (ground arith)
accused all (n ∷ notes) h c = elim (Bool-cases (accuses n)) [
  | inl e ↦ (note_key n, rw (beq_refl (note_key n)) refl, ground arith)
  | inr e ↦ let (k, a, b) = accused all notes (ground arith) (ground arith) in (k, ground arith, b)
]

module _ {F : Type 0} (ops : Floats F) (canonical_key : Text → Text)
    (parse_query : Text → Option MultiMap) (base head : Engine F) where
  -- Some record would be governed by a head policy that loses a redaction of its base policy.
  abbrev pub any_loses : List Record → Bool
  any_loses [] = false
  any_loses (rec ∷ records) =
      loses (policy_of ops canonical_key parse_query base rec)
        (policy_of ops canonical_key parse_query head rec)
      || any_loses records

  notes-loses :
      (records : List Record)
      → any accuses (all_notes ops canonical_key parse_query base head records) ≡ any_loses records
  notes-loses [] = refl
  notes-loses (rec ∷ records) =
      let bp = policy_of ops canonical_key parse_query base rec in
      let hp = policy_of ops canonical_key parse_query head rec in
      any-append accuses (record_notes ops canonical_key parse_query base head rec) _
      ∙ (rw (
        any-notes_with rec.method (route_of rec hp) (remarks_of bp hp),
        remarks-loses bp hp,
        notes-loses records,
      ))

  abbrev pub changes : List Record → List PolicyChange
  changes records = diff_policies ops canonical_key parse_query records base head

  -- When no recorded request loses a redaction, no change is reported as blocking.
  pub count_blocking-kept :
      (records : List Record) → any_loses records ≡ false → count_blocking (changes records) ≡ 0
  unfolding diff_policies count_blocking
  count_blocking-kept records h =
      let notes = all_notes ops canonical_key parse_query base head records in
      count-sort_changes (add_notes notes []) ∙ count-add_notes notes [] (notes-loses records ∙ h)

  -- When some record loses a redaction, and no two notes of different severity share a key, some
  -- change is blocking.
  pub count_blocking-lost :
      (records : List Record)
      → any_loses records ≡ true
      → is_consistent (all_notes ops canonical_key parse_query base head records) ≡ true
      → 0 < count_blocking (changes records)
  unfolding diff_policies
  count_blocking-lost records h c =
      let notes = all_notes ops canonical_key parse_query base head records in
      let (k, a, b) = accused notes notes (notes-loses records ∙ h) c in
      rw (count-sort_changes (add_notes notes [])) (
        blocks_at-count k (add_notes notes [])
          (noted_blocking k notes [] a b (unfold lookup in refl)))

  -- When a change of configuration loses a redaction on some recorded request, and no note of
  -- another severity shares its key, the report fails the check at every level but `never`,
  -- whatever else it holds.
  pub blocks-lost :
      (records : List Record) (leaks spec_findings : List Text) (fail_on : Text)
      → any_loses records ≡ true
      → is_consistent (all_notes ops canonical_key parse_query base head records) ≡ true
      → beq fail_on (codes "never") ≡ false
      → blocks
          (record {
            policy_changes = changes records;
            leaks = leaks;
            spec_findings = spec_findings;
          })
          fail_on
        ≡ true
  unfolding blocks attributable regressions
  blocks-lost records leaks spec_findings fail_on h c ne =
      let some_blocking : 0 < count_blocking (changes records) = count_blocking-lost records h c in
      ground arith
