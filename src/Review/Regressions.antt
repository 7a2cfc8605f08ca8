-- ===== src/Review/Regressions.antt =====
-- internal/review/review.go, diffPolicies: how the notes add up to changes.
use optictrace.Prelude.{
  ℕ, ◌+◌, ◌<◌, Bool, true, false, not, ◌||◌, Option, none, some, List, [], ◌∷◌, Text, beq, beq_iff,
  insert, lookup, lookup-insert, any, every, length, ◌≡◌, refl, ap, ◌∙◌, arith, Bool-cases, inl,
  inr,
}
use optictrace.Floats.{Floats}
use optictrace.Label.{MultiMap}
use optictrace.Engine.{Engine}
use optictrace.Review.{Record}
use optictrace.Review.Diff.{
  PolicyChange, Note, note_key, counted_change, add_notes, insert_change, sort_changes, all_notes,
  diff_policies,
}
use optictrace.Review.Verdict.{is_blocking, count_blocking}

-- How many times the changes were noted.
abbrev pub total : List PolicyChange → ℕ
total [] = 0
total (c ∷ cs) = c.affected + total cs

total_seen : List (Text × PolicyChange) → ℕ
total_seen [] = 0
total_seen ((k, c) ∷ seen) = c.affected + total_seen seen

abbrev affected_at : Option PolicyChange → ℕ
affected_at none = 0
affected_at (some c) = c.affected

total-insert :
    (k : Text) (d : PolicyChange) (seen : List (Text × PolicyChange))
    → total_seen (insert k d seen) + affected_at (lookup k seen) ≡ total_seen seen + d.affected
unfolding total_seen insert lookup
total-insert k d [] = omega arith
total-insert k d ((j, c) ∷ seen) = elim (Bool-cases (beq j k)) [
  | inl e ↦ rw e (omega arith)
  | inr e ↦ rw e (omega (arith, total-insert k d seen))
]

affected-counted_change :
    (n : Note) (o : Option PolicyChange) → (counted_change n o).affected ≡ affected_at o + 1
affected-counted_change n none = refl
affected-counted_change n (some c) = refl

total_noted :
    (n : Note) (k : Text) (seen : List (Text × PolicyChange))
    → total_seen (insert k (counted_change n (lookup k seen)) seen) ≡ total_seen seen + 1
total_noted n k seen = omega (
  arith,
  total-insert k (counted_change n (lookup k seen)) seen,
  affected-counted_change n (lookup k seen),
)

total-add_notes :
    (notes : List Note) (seen : List (Text × PolicyChange))
    → total_seen (add_notes notes seen) ≡ total_seen seen + length notes
unfolding add_notes
total-add_notes [] seen = omega arith
total-add_notes (n ∷ notes) seen = omega (
  arith,
  total-add_notes notes (insert (note_key n) (counted_change n (lookup (note_key n) seen)) seen),
  total_noted n (note_key n) seen,
)

total-insert_change :
    (c : PolicyChange) (cs : List PolicyChange) → total (insert_change c cs) ≡ c.affected + total cs
total-insert_change c [] = omega arith
total-insert_change c (d ∷ ds) = ground (arith, total-insert_change c ds)

total-sort_changes :
    (seen : List (Text × PolicyChange)) → total (sort_changes seen) ≡ total_seen seen
unfolding sort_changes total_seen
total-sort_changes [] = refl
total-sort_changes ((k, c) ∷ seen) =
    rw (total-insert_change c (sort_changes seen), total-sort_changes seen)

module _ {F : Type 0} (ops : Floats F) (canonical_key : Text → Text)
    (parse_query : Text → Option MultiMap) (base head : Engine F) where
  -- The counts of the reported changes add up to the number of notes: no note is lost or counted
  -- twice.
  pub total-diff_policies :
      (records : List Record)
      → total (diff_policies ops canonical_key parse_query records base head)
        ≡ length (all_notes ops canonical_key parse_query base head records)
  unfolding diff_policies total_seen
  total-diff_policies records =
      let notes = all_notes ops canonical_key parse_query base head records in
      omega (arith, total-sort_changes (add_notes notes []), total-add_notes notes [])

count-insert_change :
    (c : PolicyChange) (cs : List PolicyChange)
    → count_blocking (insert_change c cs) ≡ count_blocking (c ∷ cs)
unfolding count_blocking
count-insert_change c [] = refl
count-insert_change c (d ∷ ds) = ground (arith, count-insert_change c ds)

abbrev pub changes_of : List (Text × PolicyChange) → List PolicyChange
changes_of [] = []
changes_of ((k, c) ∷ seen) = c ∷ changes_of seen

pub count-sort_changes :
    (seen : List (Text × PolicyChange))
    → count_blocking (sort_changes seen) ≡ count_blocking (changes_of seen)
unfolding sort_changes count_blocking
count-sort_changes [] = refl
count-sort_changes ((k, c) ∷ seen) =
    rw (count-insert_change c (sort_changes seen), count-sort_changes seen)

abbrev bit : Bool → ℕ
bit true = 1
bit false = 0

-- The change under a key, when it is a blocking one.
abbrev pub blocks_at : Option PolicyChange → Bool
blocks_at none = false
blocks_at (some c) = is_blocking c.severity

abbrev pub free_at : Option PolicyChange → Bool
free_at none = true
free_at (some c) = is_blocking c.severity

count-insert :
    (k : Text) (d : PolicyChange) (seen : List (Text × PolicyChange))
    → count_blocking (changes_of (insert k d seen)) + bit (blocks_at (lookup k seen))
      ≡ count_blocking (changes_of seen) + bit (is_blocking d.severity)
unfolding count_blocking insert lookup
count-insert k d [] = ground arith
count-insert k d ((j, c) ∷ seen) = elim (Bool-cases (beq j k)) [
  | inl e ↦ rw e (ground arith)
  | inr e ↦ rw e (ground (arith, count-insert k d seen))
]

blocks_at-harmless :
    (n : Note) (o : Option PolicyChange)
    → is_blocking n.severity ≡ false
    → blocks_at (some (counted_change n o)) ≡ blocks_at o
blocks_at-harmless n none h = h
blocks_at-harmless n (some c) h = refl

-- With no blocking note there is no blocking change.
count_noted :
    (n : Note) (k : Text) (seen : List (Text × PolicyChange))
    → is_blocking n.severity ≡ false
    → count_blocking (changes_of (insert k (counted_change n (lookup k seen)) seen))
      ≡ count_blocking (changes_of seen)
count_noted n k seen h =
    let i = count-insert k (counted_change n (lookup k seen)) seen in
    let same = ap bit (blocks_at-harmless n (lookup k seen) h) in omega arith

pub count-add_notes :
    (notes : List Note) (seen : List (Text × PolicyChange))
    → any (λ n. is_blocking n.severity) notes ≡ false
    → count_blocking (changes_of (add_notes notes seen)) ≡ count_blocking (changes_of seen)
unfolding add_notes
count-add_notes [] seen h = refl
count-add_notes (n ∷ notes) seen h =
    count-add_notes notes (insert (note_key n) (counted_change n (lookup (note_key n) seen)) seen)
      (ground arith)
    ∙ count_noted n (note_key n) seen (ground arith)

pub blocks_at-count :
    (k : Text) (seen : List (Text × PolicyChange))
    → blocks_at (lookup k seen) ≡ true
    → 0 < count_blocking (changes_of seen)
unfolding count_blocking lookup
blocks_at-count k [] h = absurd (ground arith)
blocks_at-count k ((j, c) ∷ seen) h = elim (Bool-cases (beq j k)) [
  | inl e ↦ let b : is_blocking c.severity ≡ true = rw e at h in rw b (omega arith)
  | inr e ↦
      let b : 0 < count_blocking (changes_of seen) = blocks_at-count k seen (rw e at h) in
      ground arith
]

blocks_at-counted_change :
    (n : Note) (o : Option PolicyChange)
    → blocks_at o ≡ true
    → blocks_at (some (counted_change n o)) ≡ true
blocks_at-counted_change n none h = absurd (ground arith)
blocks_at-counted_change n (some c) h = h

blocks_at-fresh :
    (n : Note) (o : Option PolicyChange)
    → is_blocking n.severity ≡ true
    → free_at o ≡ true
    → blocks_at (some (counted_change n o)) ≡ true
blocks_at-fresh n none h f = h
blocks_at-fresh n (some c) h f = f

-- A change keeps its severity.
blocks_at-add_notes :
    (k : Text) (notes : List Note) (seen : List (Text × PolicyChange))
    → blocks_at (lookup k seen) ≡ true
    → blocks_at (lookup k (add_notes notes seen)) ≡ true
unfolding add_notes
blocks_at-add_notes k [] seen h = h
blocks_at-add_notes k (n ∷ notes) seen h = blocks_at-add_notes k notes _ (
    rw (lookup-insert (note_key n) k (counted_change n (lookup (note_key n) seen)) seen)
      (elim (Bool-cases (beq (note_key n) k)) [
        | inl e ↦
            let same : note_key n ≡ k = (beq_iff (note_key n) k).0 e in
            rw (e, same) (blocks_at-counted_change n (lookup k seen) h)
        | inr e ↦ rw e h
      ]))

-- Every note under the key is blocking.
abbrev pub all_blocking : Text → List Note → Bool
all_blocking k notes = every (λ m. not (beq (note_key m) k) || is_blocking m.severity) notes

pub noted_blocking :
    (k : Text) (notes : List Note) (seen : List (Text × PolicyChange))
    → any (λ m. beq (note_key m) k) notes ≡ true
    → all_blocking k notes ≡ true
    → free_at (lookup k seen) ≡ true
    → blocks_at (lookup k (add_notes notes seen)) ≡ true
unfolding add_notes
noted_blocking k [] seen h a f = absurd (ground arith)
noted_blocking k (n ∷ notes) seen h a f = elim (Bool-cases (beq (note_key n) k)) [
  | inl e ↦
      let same : note_key n ≡ k = (beq_iff (note_key n) k).0 e in
      blocks_at-add_notes k notes _ (
        rw
          (lookup-insert (note_key n) k (counted_change n (lookup (note_key n) seen)) seen, e, same)
          (blocks_at-fresh n (lookup k seen) (ground arith) f))
  | inr e ↦
      noted_blocking k notes _ (ground arith) (ground arith)
        (rw (lookup-insert (note_key n) k (counted_change n (lookup (note_key n) seen)) seen, e) f)
]
