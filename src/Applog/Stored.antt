-- ===== src/Applog/Stored.antt =====
-- internal/applog/applog.go, Admit: what an admitted line holds, and what a drop leaves alone.
use optictrace.Prelude.{
  ℕ, suc, ◌≤◌, ◌<◌, Bool, true, false, ◌&&◌, ◌||◌, none, some, List, [], ◌∷◌, ◌++◌, append-nil,
  Text, length, contains, is_empty, to_lower, trim_space, ltb, ◌==◌, if◌then◌else◌, if_cases, ◌≡◌,
  inl, inr, refl, ap, ◌∙◌, arith, Bool-cases,
}
use optictrace.Redact.{placeholder}
use optictrace.Telcap.{Counter, allow}
use optictrace.Telcap.Cap.{allow_verdict}
use optictrace.Telcap.Truncate.{truncate_utf8_lem}
use optictrace.Spans.{replace_all}
use optictrace.Applog.{
  AppLog, Governor, Effective, Reason, global, resolve, level_rank, levelled, scrub, scrub_fields,
  cleaned, cap_message, with_counter, count_line, admit_under, admit,
}
use optictrace.Applog.Tighten.{IsStricter, resolve-IsStricter}

-- Every field that the policy lists is masked, and every other one went through its patterns.
abbrev pub AllMasked : Effective → List (Text × Text) → List (Text × Text) → Type 0
AllMasked eff [] [] = Unit
AllMasked eff ((k, v) ∷ fs) ((j, w) ∷ gs) =
    (k ≡ j)
    × (w ≡ (if contains eff.fields (to_lower k) then placeholder else replace_all eff.patterns v))
    × AllMasked eff fs gs
AllMasked eff _ _ = ⊥

scrub_fields-AllMasked :
    (eff : Effective) (fs : List (Text × Text)) → AllMasked eff fs (scrub_fields eff fs)
scrub_fields-AllMasked eff [] = tt
scrub_fields-AllMasked eff ((k, v) ∷ fs) = (refl, refl, scrub_fields-AllMasked eff fs)

-- What may be stored of a line, under the policy of its route.
pub record IsStorable (g : Governor) (eff : Effective) (l stored : AppLog) : Type 0 where
  pub not_dropped : eff.drop ≡ false
  pub at_floor : eff.floor ≤ suc (level_rank stored.level)
  pub fits : 0 < g.max_bytes → length stored.message ≤ g.max_bytes
  pub from_redacted :
      (rest : Text) × (stored.message ++ rest ≡ trim_space (replace_all eff.patterns l.message))
  pub all_masked : AllMasked eff l.fields stored.fields

with_counter_line : (g : Governor) (l : AppLog) (r : Counter × Bool) → (with_counter g l r).line ≡ l
with_counter_line g l (c, true) = refl
with_counter_line g l (c, false) = refl

count_line_line : (g : Governor) (eff : Effective) (l : AppLog) → (count_line g eff l).line ≡ l
unfolding count_line
count_line_line g eff l =
    ground (arith, with_counter_line g l (allow g.counter l.span_id eff.max_lines))

-- The three facts on a capped line.
record IsCapped (g : Governor) (l stored : AppLog) : Type 0 where
  fits : 0 < g.max_bytes → length stored.message ≤ g.max_bytes
  prefix : (rest : Text) × (stored.message ++ rest ≡ l.message)
  same_level : stored.level ≡ l.level
  same_fields : stored.fields ≡ l.fields

cap_message-IsCapped : (g : Governor) (l : AppLog) → IsCapped g l (cap_message g l)
unfolding cap_message
cap_message-IsCapped g l =
    if_cases (λ m. IsCapped g l m) (ltb 0 g.max_bytes && ltb g.max_bytes (length l.message)) _ _
      (λ e.
        let limited : 0 < g.max_bytes = ground arith in
        let (short, prefix, _) = truncate_utf8_lem l.message g.max_bytes limited in
        record { fits = λ h. short; prefix = prefix; same_level = refl; same_fields = refl })
      (λ e. record {
        fits = λ h. ground arith;
        prefix = ([], append-nil l.message);
        same_level = refl;
        same_fields = refl;
      })

cleaned-message :
    (eff : Effective) (l : AppLog)
    → (cleaned eff l).message ≡ trim_space (replace_all eff.patterns l.message)
unfolding cleaned scrub
cleaned-message eff l = refl

cleaned-fields : (eff : Effective) (l : AppLog) → (cleaned eff l).fields ≡ scrub_fields eff l.fields
unfolding cleaned scrub
cleaned-fields eff l = refl

cleaned-level : (eff : Effective) (l : AppLog) → (cleaned eff l).level ≡ l.level
unfolding cleaned scrub
cleaned-level eff l = refl

capped-IsStorable :
    (g : Governor) (eff : Effective) (l : AppLog)
    → eff.drop ≡ false
    → eff.floor ≤ suc (level_rank l.level)
    → IsStorable g eff l (cap_message g (cleaned eff l))
capped-IsStorable g eff l d f =
    let c = cap_message-IsCapped g (cleaned eff l) in
    let (rest, p) = c.prefix in
    record {
      not_dropped = d;
      at_floor = rw (c.same_level, cleaned-level eff l) f;
      fits = c.fits;
      from_redacted = (rest, p ∙ cleaned-message eff l);
      all_masked = rw (c.same_fields, cleaned-fields eff l) (scrub_fields-AllMasked eff l.fields);
    }

-- A call under a policy admits only by the last of its tests.
record Passes (g : Governor) (eff : Effective) (l : AppLog) : Type 0 where
  not_dropped : eff.drop ≡ false
  at_floor : eff.floor ≤ suc (level_rank l.level)
  line : (admit_under g eff l).line ≡ cap_message g (cleaned eff l)

admit_under-Passes :
    (g : Governor) (eff : Effective) (l : AppLog)
    → (admit_under g eff l).reason ≡ none
    → Passes g eff l
unfolding admit_under
admit_under-Passes g eff l h = record {
  not_dropped = ground arith;
  at_floor = ground arith;
  line = ground (arith, count_line_line g eff (cap_message g (cleaned eff l)));
}

admit-under :
    (g : Governor) (l : AppLog)
    → (admit g l).reason ≡ none
    → admit g l ≡ admit_under g (resolve g l.route) (levelled l)
unfolding admit
admit-under g l h = ground arith

admit_under-IsStorable :
    (g : Governor) (eff : Effective) (l : AppLog)
    → (admit_under g eff l).reason ≡ none
    → IsStorable g eff l (admit_under g eff l).line
admit_under-IsStorable g eff l h =
    let p = admit_under-Passes g eff l h in
    rw p.line (capped-IsStorable g eff l p.not_dropped p.at_floor)

-- An admitted log line is storable under the policy of its route, which is at least as strict as
-- the global one: no rule drops it, its level is at or above the floor, its message fits the byte
-- limit and is a prefix of what redaction and trimming left, and its listed fields are masked.
pub admit-IsStorable :
    (g : Governor) (l : AppLog)
    → (admit g l).reason ≡ none
    → IsStricter (global g) (resolve g l.route)
      × IsStorable g (resolve g l.route) (levelled l) (admit g l).line
admit-IsStorable g l h =
    let e = admit-under g l h in
    (
      resolve-IsStricter g l.route,
      rw e (admit_under-IsStorable g (resolve g l.route) (levelled l) (rw e at h)),
    )

with_counter_kept :
    (g : Governor) (l : AppLog) (r : Counter × Bool)
    → r.0 ≡ g.counter
    → (with_counter g l r).governor ≡ g
with_counter_kept g l (c, true) h = ap (λ d. record g { counter = d }) h
with_counter_kept g l (c, false) h = ap (λ d. record g { counter = d }) h

with_counter_refused :
    (g : Governor) (l : AppLog) (r : Counter × Bool) (why : Reason)
    → (with_counter g l r).reason ≡ some why
    → r.1 ≡ false
with_counter_refused g l (c, true) why h = absurd (ground arith)
with_counter_refused g l (c, false) why h = refl

allow_refused :
    (c : Counter) (key : Text) (max : ℕ) → (allow c key max).1 ≡ false → (allow c key max).0 ≡ c
allow_refused c key max h = let v = allow_verdict c key max in v.1 (inr (ground (arith, v.0)))

count_line_kept :
    (g : Governor) (eff : Effective) (l : AppLog) (why : Reason)
    → (count_line g eff l).reason ≡ some why
    → (count_line g eff l).governor ≡ g
unfolding count_line
count_line_kept g eff l why h = elim (Bool-cases (is_empty l.span_id || eff.max_lines == 0)) [
  | inl e ↦ rw e
  | inr e ↦
      let refused =
        with_counter_refused g l (allow g.counter l.span_id eff.max_lines) why (rw e at h) in
      rw e (with_counter_kept g l _ (allow_refused g.counter l.span_id eff.max_lines refused))
]

-- A log line that is dropped leaves the governor and its counts as they were.
pub admit_dropped_kept :
    (g : Governor) (l : AppLog) (why : Reason)
    → (admit g l).reason ≡ some why
    → (admit g l).governor ≡ g
unfolding admit admit_under
admit_dropped_kept g l why h = ground (
  arith,
  count_line_kept g (resolve g l.route) (cap_message g (cleaned (resolve g l.route) (levelled l)))
      why,
)
