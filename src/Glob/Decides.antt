-- ===== src/Glob/Decides.antt =====
-- internal/engine/engine.go, matchSegments beside a relation with no search in it.
use optictrace.Prelude.{
  Bool, true, false, List, [], ◌∷◌, Text, beq, ◌≡◌, refl, ◌↔◌, Bool-cases, inl, inr, ◌||◌, ◌&&◌,
  ◌⊎◌,
}
use optictrace.Glob.{double_star, any_suffix, first_segment, match_segments}
use optictrace.Glob.Segment.{path_match}

pub data SegMatches : List Text → List Text → Type 0 where
  done : SegMatches [] []
  one :
      {p s : Text} {ps ss : List Text}
      → beq p double_star ≡ false
      → path_match p s ≡ true
      → SegMatches ps ss
      → SegMatches (p ∷ ps) (s ∷ ss)
  leave :
      {p : Text} {ps ss : List Text}
      → beq p double_star ≡ true
      → SegMatches ps ss
      → SegMatches (p ∷ ps) ss
  take :
      {p s : Text} {ps ss : List Text}
      → beq p double_star ≡ true
      → SegMatches (p ∷ ps) ss
      → SegMatches (p ∷ ps) (s ∷ ss)

&&-true : (a b : Bool) → (a && b) ≡ true → (a ≡ true) × (b ≡ true)
&&-true true b h = (refl, h)
&&-true false b h = cc

||-true : (a b : Bool) → (a || b) ≡ true → (a ≡ true) ⊎ (b ≡ true)
||-true true b h = inl refl
||-true false b h = inr h

any_suffix-sound :
    (p : Text) (ps : List Text)
    → beq p double_star ≡ true
    → ((ss : List Text) → match_segments ps ss ≡ true → SegMatches ps ss)
    → (ss : List Text) → any_suffix (match_segments ps) ss ≡ true
    → SegMatches (p ∷ ps) ss
any_suffix-sound p ps e ih [] h = leave e (ih [] h)
any_suffix-sound p ps e ih (s ∷ ss) h = elim (||-true _ _ h) [
  | inl now ↦ leave e (ih (s ∷ ss) now)
  | inr later ↦ take e (any_suffix-sound p ps e ih ss later)
]

first_segment-sound :
    (p : Text) (ps : List Text)
    → beq p double_star ≡ false
    → ((ss : List Text) → match_segments ps ss ≡ true → SegMatches ps ss)
    → (ss : List Text) → first_segment p (match_segments ps) ss ≡ true
    → SegMatches (p ∷ ps) ss
first_segment-sound p ps e ih [] h = cc
first_segment-sound p ps e ih (s ∷ ss) h = let (now, rest) = &&-true _ _ h in one e now (ih ss rest)

last_takes_all : (p : Text) (ss : List Text) → beq p double_star ≡ true → SegMatches (p ∷ []) ss
last_takes_all p [] e = leave e done
last_takes_all p (s ∷ ss) e = take e (last_takes_all p ss e)

sound : (pattern segs : List Text) → match_segments pattern segs ≡ true → SegMatches pattern segs
unfolding match_segments
sound [] [] h = done
sound [] (s ∷ ss) h = cc
sound (p ∷ []) segs h = elim (Bool-cases (beq p double_star)) [
  | inl e ↦ last_takes_all p segs e
  | inr e ↦ first_segment-sound p [] e (sound []) segs (rw e at h)
]
sound (p ∷ q ∷ pattern) segs h = elim (Bool-cases (beq p double_star)) [
  | inl e ↦ any_suffix-sound p (q ∷ pattern) e (sound (q ∷ pattern)) segs (rw e at h)
  | inr e ↦ first_segment-sound p (q ∷ pattern) e (sound (q ∷ pattern)) segs (rw e at h)
]

any_suffix-here : (f : List Text → Bool) (ss : List Text) → f ss ≡ true → any_suffix f ss ≡ true
any_suffix-here f [] h = h
any_suffix-here f (s ∷ ss) h = rw h

||-later : (a b : Bool) → b ≡ true → (a || b) ≡ true
||-later true b h = refl
||-later false b h = h

complete : {pattern segs : List Text} → SegMatches pattern segs → match_segments pattern segs ≡ true
unfolding match_segments
complete done = refl
complete (one e m d) = rw (e, m) (complete d)
complete (leave {ps = []} e d) = rw e
complete (leave {ps = q ∷ ps} {ss} e d) =
    rw e (any_suffix-here (match_segments (q ∷ ps)) ss (complete d))
complete (take {ps = []} e d) = rw e
complete (take {ps = q ∷ ps} e d) = rw e (||-later _ _ (rw e at (complete d)))

-- The matcher answers true exactly on the segment lists that the glob describes, `**` standing for
-- any run of segments.
pub match_segments_iff :
    (pattern segs : List Text) → (match_segments pattern segs ≡ true) ↔ SegMatches pattern segs
match_segments_iff pattern segs = (sound pattern segs, complete)
