-- ===== src/Spans/Verdict.antt =====
-- internal/spans/spans.go, Admit: its outcome and its effect on the counts.
use optictrace.Prelude.{
  ◌≡◌, ◌≢◌, inl, inr, Bool, true, false, ◌&&◌, ◌||◌, Option, none, some, [], is_empty,
  if◌then◌else◌, arith, refl, ltb, ◌==◌, Bool-cases, ap, not, ◌≤◌,
}
use optictrace.Telcap.{Counter, allow, seen}
use optictrace.Telcap.Cap.{allow_verdict}
use optictrace.Spans.{
  Governor, Span, Reason, orphan, too_fast, request_cap, disabled, empty, with_counter, count_span,
  is_too_fast, scrub, tidy, admit,
}

-- The parent, the duration and the emptiness of the error that the tests read.
pub has_room : Governor → Span → Bool
has_room g s =
    is_empty s.parent_span_id || g.max_per == 0 || ltb (seen g.counter s.parent_span_id) g.max_per

with_counter_reason :
    (g : Governor) (s : Span) (r : Counter × Bool)
    → (with_counter g s r).reason ≡ (if r.1 then none else some request_cap)
with_counter_reason g s (c, true) = refl
with_counter_reason g s (c, false) = refl

count_span_reason :
    (g : Governor) (s : Span)
    → (count_span g s).reason ≡ (if has_room g s then none else some request_cap)
unfolding count_span has_room
count_span_reason g s = elim (Bool-cases (is_empty s.parent_span_id)) [
  | inl e ↦ rw e
  | inr e ↦ rw (
    e,
    with_counter_reason g s (allow g.counter s.parent_span_id g.max_per),
    (allow_verdict g.counter s.parent_span_id g.max_per).0,
  )
]

-- The tests of `Admit`, in their order, on the span with its name trimmed.
pub verdict : Governor → Span → Option Reason
verdict g s =
    if not g.enabled
    then some disabled
    else if is_empty (tidy s).name
    then some empty
    else if is_empty s.parent_span_id && g.drop_orphans
    then some orphan
    else if is_too_fast g s
    then some too_fast
    else if has_room g s
    then none
    else some request_cap

tidy_parent : (s : Span) → (tidy s).parent_span_id ≡ s.parent_span_id
unfolding tidy
tidy_parent s = refl

is_too_fast-tidy : (g : Governor) (s : Span) → is_too_fast g (tidy s) ≡ is_too_fast g s
unfolding is_too_fast tidy
is_too_fast-tidy g s = refl

has_room-scrub : (g : Governor) (s : Span) → has_room g (scrub g (tidy s)) ≡ has_room g s
unfolding has_room scrub tidy
has_room-scrub g s = refl

-- `Admit` gives the first reason that holds, in the order: the feature is off, the name is blank,
-- the span is an orphan and those are dropped, it was faster than the threshold with no error, its
-- request has used up its cap; and no reason if none of them holds.
pub admit-verdict : (g : Governor) (s : Span) → (admit g s).reason ≡ verdict g s
unfolding admit verdict
admit-verdict g s = ground (
  arith,
  count_span_reason g (scrub g (tidy s)),
  tidy_parent s,
  is_too_fast-tidy g s,
  has_room-scrub g s,
)

-- An operation that failed is not dropped for being fast.
pub admit_failed : (g : Governor) (s : Span) → s.error ≢ [] → (admit g s).reason ≢ some too_fast
unfolding verdict is_too_fast
admit_failed g s ne h = ground (arith, admit-verdict g s)

with_counter_kept :
    (g : Governor) (s : Span) (r : Counter × Bool)
    → r.0 ≡ g.counter
    → (with_counter g s r).governor ≡ g
with_counter_kept g s (c, true) h = ap (λ d. record g { counter = d }) h
with_counter_kept g s (c, false) h = ap (λ d. record g { counter = d }) h

count_span_kept : (g : Governor) (s : Span) → has_room g s ≡ false → (count_span g s).governor ≡ g
unfolding count_span has_room
count_span_kept g s h = elim (Bool-cases (is_empty s.parent_span_id)) [
  | inl e ↦ rw e
  | inr e ↦ rw e (
      with_counter_kept g s _
        ((allow_verdict g.counter s.parent_span_id g.max_per).1 (inr (full g s e h))))
]
  where
    full :
        (g : Governor) (s : Span)
        → is_empty s.parent_span_id ≡ false
        → (is_empty s.parent_span_id
            || g.max_per == 0
            || ltb (seen g.counter s.parent_span_id) g.max_per)
          ≡ false
        → g.max_per ≤ seen g.counter s.parent_span_id
    full g s e h = ground arith

-- A span that is dropped leaves the governor and its counts as they were.
pub admit_dropped :
    (g : Governor) (s : Span) (r : Reason) → (admit g s).reason ≡ some r → (admit g s).governor ≡ g
unfolding admit
admit_dropped g s r h =
    ground (arith, count_span_kept g (scrub g (tidy s)), count_span_reason g (scrub g (tidy s)))
