-- ===== src/Glob/Route/Ends.antt =====
-- internal/engine/engine.go, splitPath: texts and segments that begin and end with no separator.
use optictrace.Prelude.{
  ℕ, Bool, true, false, not, ◌&&◌, ◌||◌, List, [], ◌∷◌, ◌++◌, Text, every, is_empty, ◌==◌,
  if◌then◌else◌, split_by, join_by, extend_first, trim, trim_left, trim_right, ◌≡◌, refl, ap, ◌∙◌,
  arith, Bool-cases, inl, inr,
}

module _ (sep : ℕ) where
  abbrev pub cuts : ℕ → Bool
  cuts c = c == sep

  abbrev pub is_free : Text → Bool
  is_free s = every (λ c. not (c == sep)) s

  -- The first byte, or the last one, is there and no separator.
  abbrev pub begins : Text → Bool
  begins [] = false
  begins (c ∷ s) = not (c == sep)

  abbrev pub ends : Text → Bool
  ends [] = false
  ends (c ∷ []) = not (c == sep)
  ends (c ∷ d ∷ s) = ends (d ∷ s)

  -- The same of the first and the last segment of a list.
  abbrev pub first_full : List Text → Bool
  first_full [] = false
  first_full (s ∷ segs) = not (is_empty s)

  abbrev pub last_full : List Text → Bool
  last_full [] = false
  last_full (s ∷ []) = not (is_empty s)
  last_full (s ∷ t ∷ segs) = last_full (t ∷ segs)

  split_one : (s : Text) → is_free s ≡ true → split_by sep s ≡ s ∷ []
  unfolding split_by
  split_one [] h = refl
  split_one (c ∷ s) h =
      let differs : (c == sep) ≡ false = ground arith in rw (differs, split_one s (ground arith))

  split_more : (s t : Text) → is_free s ≡ true → split_by sep (s ++ sep ∷ t) ≡ s ∷ split_by sep t
  unfolding split_by
  split_more [] t h = ground arith
  split_more (c ∷ s) t h =
      let differs : (c == sep) ≡ false = ground arith in rw (differs, split_more s t (ground arith))

  pub split_by-join_by :
      (s : Text) (segs : List Text)
      → every is_free (s ∷ segs) ≡ true
      → split_by sep (join_by sep (s ∷ segs)) ≡ s ∷ segs
  unfolding join_by
  split_by-join_by s [] h = split_one s (ground arith)
  split_by-join_by s (t ∷ segs) h =
      split_more s (join_by sep (t ∷ segs)) (ground arith)
      ∙ ap (λ r. s ∷ r) (split_by-join_by t segs (ground arith))

  extend_free :
      (c : ℕ) (segs : List Text)
      → (c == sep) ≡ false
      → every is_free segs ≡ true
      → every is_free (extend_first c segs) ≡ true
  extend_free c [] d h = refl
  extend_free c (s ∷ segs) d h = ground arith

  pub split_by_free : (t : Text) → every is_free (split_by sep t) ≡ true
  unfolding split_by
  split_by_free [] = refl
  split_by_free (c ∷ t) = elim (Bool-cases (c == sep)) [
    | inl e ↦ rw e (split_by_free t)
    | inr e ↦ rw e (extend_free c (split_by sep t) e (split_by_free t))
  ]

  first_full-extend :
      (c : ℕ) (segs : List Text) → is_empty segs ≡ false → first_full (extend_first c segs) ≡ true
  first_full-extend c [] h = absurd (ground arith)
  first_full-extend c (s ∷ segs) h = refl

  split_by_some : (t : Text) → is_empty (split_by sep t) ≡ false
  unfolding split_by
  split_by_some [] = refl
  split_by_some (c ∷ t) = elim (Bool-cases (c == sep)) [
    | inl e ↦ rw e refl
    | inr e ↦ rw e (extend_some c (split_by sep t) (split_by_some t))
  ]
    where
      extend_some :
          (c : ℕ) (segs : List Text)
          → is_empty segs ≡ false
          → is_empty (extend_first c segs) ≡ false
      extend_some c [] h = h
      extend_some c (s ∷ segs) h = refl

  pub first_full-split_by : (t : Text) → begins t ≡ true → first_full (split_by sep t) ≡ true
  unfolding split_by
  first_full-split_by [] h = absurd (ground arith)
  first_full-split_by (c ∷ t) h =
      let differs : (c == sep) ≡ false = ground arith in
      rw differs (first_full-extend c (split_by sep t) (split_by_some t))

  last_full-extend :
      (c : ℕ) (segs : List Text) → last_full segs ≡ true → last_full (extend_first c segs) ≡ true
  last_full-extend c [] h = h
  last_full-extend c (s ∷ []) h = refl
  last_full-extend c (s ∷ t ∷ segs) h = h

  last_full-more : (segs : List Text) → last_full segs ≡ true → last_full ([] ∷ segs) ≡ true
  last_full-more [] h = absurd (ground arith)
  last_full-more (s ∷ segs) h = h

  pub last_full-split_by : (t : Text) → ends t ≡ true → last_full (split_by sep t) ≡ true
  unfolding split_by
  last_full-split_by [] h = absurd (ground arith)
  last_full-split_by (c ∷ []) h = let differs : (c == sep) ≡ false = ground arith in rw differs refl
  last_full-split_by (c ∷ d ∷ t) h = elim (Bool-cases (c == sep)) [
    | inl e ↦ rw e (last_full-more (split_by sep (d ∷ t)) (last_full-split_by (d ∷ t) h))
    | inr e ↦ rw e (last_full-extend c (split_by sep (d ∷ t)) (last_full-split_by (d ∷ t) h))
  ]

  begins-append : (s t : Text) → begins s ≡ true → begins (s ++ t) ≡ true
  begins-append [] t h = absurd (ground arith)
  begins-append (c ∷ s) t h = h

  ends-append : (s t : Text) → ends t ≡ true → ends (s ++ t) ≡ true
  ends-append [] t h = h
  ends-append (c ∷ []) [] h = absurd (ground arith)
  ends-append (c ∷ []) (d ∷ t) h = h
  ends-append (c ∷ d ∷ s) t h = ends-append (d ∷ s) t h

  full-begins : (s : Text) → is_free s ≡ true → not (is_empty s) ≡ true → begins s ≡ true
  full-begins [] f h = absurd (ground arith)
  full-begins (c ∷ s) f h = ground arith

  full-ends : (s : Text) → is_free s ≡ true → not (is_empty s) ≡ true → ends s ≡ true
  full-ends [] f h = absurd (ground arith)
  full-ends (c ∷ []) f h = ground arith
  full-ends (c ∷ d ∷ s) f h = full-ends (d ∷ s) (ground arith) refl

  pub begins-join_by :
      (segs : List Text)
      → every is_free segs ≡ true
      → first_full segs ≡ true
      → begins (join_by sep segs) ≡ true
  unfolding join_by
  begins-join_by [] f h = absurd (ground arith)
  begins-join_by (s ∷ []) f h = full-begins s (ground arith) h
  begins-join_by (s ∷ t ∷ segs) f h = begins-append s _ (full-begins s (ground arith) h)

  pub ends-join_by :
      (segs : List Text)
      → every is_free segs ≡ true
      → last_full segs ≡ true
      → ends (join_by sep segs) ≡ true
  unfolding join_by
  ends-join_by [] f h = absurd (ground arith)
  ends-join_by (s ∷ []) f h = full-ends s (ground arith) h
  ends-join_by (s ∷ t ∷ segs) f h =
      ends-append s (sep ∷ join_by sep (t ∷ segs))
        (ends-append (sep ∷ []) (join_by sep (t ∷ segs)) (ends-join_by (t ∷ segs) (ground arith) h))

  trim_left-begins : (t : Text) → is_empty (trim_left cuts t) || begins (trim_left cuts t) ≡ true
  unfolding trim_left
  trim_left-begins [] = refl
  trim_left-begins (c ∷ t) = elim (Bool-cases (c == sep)) [
    | inl e ↦ rw e (trim_left-begins t)
    | inr e ↦ rw e (ground arith)
  ]

  trim_right-ends : (t : Text) → is_empty (trim_right cuts t) || ends (trim_right cuts t) ≡ true
  unfolding trim_right
  trim_right-ends [] = refl
  trim_right-ends (c ∷ t) = last_kept c (trim_right cuts t) (trim_right-ends t)
    where
      last_kept :
          (c : ℕ) (u : Text)
          → is_empty u || ends u ≡ true
          → is_empty (if is_empty u && cuts c then [] else c ∷ u)
              || ends (if is_empty u && cuts c then [] else c ∷ u)
            ≡ true
      last_kept c [] h = ground arith
      last_kept c (d ∷ u) h = h

  trim_right-begins : (t : Text) → begins t ≡ true → begins (trim_right cuts t) ≡ true
  unfolding trim_right
  trim_right-begins [] h = h
  trim_right-begins (c ∷ t) h = ground arith

  pub trim-ends :
      (t : Text)
      → is_empty (trim cuts t) ≡ false
      → (begins (trim cuts t) ≡ true) × (ends (trim cuts t) ≡ true)
  unfolding trim
  trim-ends t h =
      let some_left = begun (trim_left cuts t) (trim_left-begins t) h in
      let kept = trim_right-ends (trim_left cuts t) in
      (trim_right-begins (trim_left cuts t) some_left, ground arith)
    where
      begun :
          (u : Text)
          → is_empty u || begins u ≡ true
          → is_empty (trim_right cuts u) ≡ false
          → begins u ≡ true
      begun [] k h = unfold trim_right in absurd (ground arith)
      begun (c ∷ u) k h = k

  trim_left_same : (t : Text) → begins t ≡ true → trim_left cuts t ≡ t
  unfolding trim_left
  trim_left_same [] h = refl
  trim_left_same (c ∷ t) h = ground arith

  trim_right_same : (t : Text) → ends t ≡ true → trim_right cuts t ≡ t
  unfolding trim_right
  trim_right_same [] h = refl
  trim_right_same (c ∷ []) h = ground arith
  trim_right_same (c ∷ d ∷ t) h = rw (trim_right_same (d ∷ t) h)

  pub trim_same : (t : Text) → begins t ≡ true → ends t ≡ true → trim cuts (sep ∷ t) ≡ t
  unfolding trim
  trim_same t b e =
      let same : (sep == sep) ≡ true = ground arith in
      ap (trim_right cuts) (left_dropped t same ∙ trim_left_same t b) ∙ trim_right_same t e
    where
      left_dropped : (t : Text) → (sep == sep) ≡ true → trim_left cuts (sep ∷ t) ≡ trim_left cuts t
      left_dropped t same = unfold trim_left in rw same
