-- ===== src/Spans/Scrub.antt =====
-- internal/spans/spans.go, scrub and clean.
use optictrace.Prelude.{
  ◌≤◌, ◌<◌, ◌≡◌, ◌⊎◌, inl, inr, Bool, true, false, ◌&&◌, not, none, List, [], ◌∷◌, ◌++◌, append-nil,
  Text, length, contains, to_lower, if◌then◌else◌, arith, refl, ltb, ◌==◌, if_cases,
}
use optictrace.Redact.{placeholder}
use optictrace.Telcap.{Counter, allow}
use optictrace.Telcap.Truncate.{truncate_utf8_lem}
use optictrace.Spans.{
  Governor, Span, with_counter, count_span, clean, replace_all, scrub_attrs, scrub, tidy, admit,
}

-- A text that comes of another by cutting off its end.
abbrev pub IsPrefixOf : Text → Text → Type 0
IsPrefixOf t s = (rest : Text) × (t ++ rest ≡ s)

-- What may be stored for a value: it fits the limit, if there is one, and it is empty or a prefix
-- of the value after every pattern was applied.
pub record IsClean (g : Governor) (v stored : Text) : Type 0 where
  pub fits : 0 < g.max_bytes → length stored ≤ g.max_bytes
  pub from_replaced : (stored ≡ []) ⊎ IsPrefixOf stored (replace_all g.patterns v)

clean-IsClean : (g : Governor) (v : Text) → IsClean g v (clean g v).0
unfolding clean
clean-IsClean g [] = record { fits = λ h. omega arith; from_replaced = inl refl }
clean-IsClean g (c ∷ v) =
    if_cases {A = Text × Bool} (λ r. IsClean g (c ∷ v) r.0)
      (not (g.max_bytes == 0) && ltb g.max_bytes (length (replace_all g.patterns (c ∷ v)))) _ _
      (λ e.
        let limited : 0 < g.max_bytes = ground arith in
        let (short, prefix, _) =
          truncate_utf8_lem (replace_all g.patterns (c ∷ v)) g.max_bytes limited in
        record { fits = λ h. short; from_replaced = inr prefix })
      (λ e. record { fits = λ h. ground arith; from_replaced = inr ([], append-nil _) })

-- Attribute by attribute: the keys stay, and each value is the placeholder if the policy lists its
-- key, and clean if it does not.
abbrev pub AllScrubbed : Governor → List (Text × Text) → List (Text × Text) → Type 0
AllScrubbed g [] [] = Unit
AllScrubbed g ((k, v) ∷ as') ((j, w) ∷ bs) =
    (k ≡ j)
    × (if contains g.redact_attr (to_lower k) then w ≡ placeholder else IsClean g v w)
    × AllScrubbed g as' bs
AllScrubbed g _ _ = ⊥

scrub_attrs-AllScrubbed :
    (g : Governor) (as' : List (Text × Text)) → AllScrubbed g as' (scrub_attrs g as')
scrub_attrs-AllScrubbed g [] = tt
scrub_attrs-AllScrubbed g ((k, v) ∷ as') =
    (refl, scrubbed (contains g.redact_attr (to_lower k)), scrub_attrs-AllScrubbed g as')
  where
    scrubbed :
        (b : Bool)
        → if b
          then (if b then (placeholder, false) else clean g v).0 ≡ placeholder
          else IsClean g v (if b then (placeholder, false) else clean g v).0
    scrubbed true = refl
    scrubbed false = clean-IsClean g v

pub record IsScrubbed (g : Governor) (s t : Span) : Type 0 where
  pub clean_error : IsClean g s.error t.error
  pub clean_attrs : AllScrubbed g s.attrs t.attrs
  pub same_parent : s.parent_span_id ≡ t.parent_span_id

scrub-IsScrubbed : (g : Governor) (s : Span) → IsScrubbed g s (scrub g (tidy s))
unfolding scrub tidy
scrub-IsScrubbed g s = record {
  clean_error = clean-IsClean g s.error;
  clean_attrs = scrub_attrs-AllScrubbed g s.attrs;
  same_parent = refl;
}

with_counter_span : (g : Governor) (s : Span) (r : Counter × Bool) → (with_counter g s r).span ≡ s
with_counter_span g s (c, true) = refl
with_counter_span g s (c, false) = refl

count_span_span : (g : Governor) (s : Span) → (count_span g s).span ≡ s
unfolding count_span
count_span_span g s =
    ground (arith, with_counter_span g s (allow g.counter s.parent_span_id g.max_per))

admitted_span :
    (g : Governor) (s : Span) → (admit g s).reason ≡ none → (admit g s).span ≡ scrub g (tidy s)
unfolding admit
admitted_span g s h = ground (arith, count_span_span g (scrub g (tidy s)))

-- An admitted span has been scrubbed: each listed attribute is the placeholder, every other value
-- and the error text fit the byte limit and are empty or a prefix of what the patterns left.
pub admit-IsScrubbed :
    (g : Governor) (s : Span) → (admit g s).reason ≡ none → IsScrubbed g s (admit g s).span
admit-IsScrubbed g s h = rw (admitted_span g s h) (scrub-IsScrubbed g s)
