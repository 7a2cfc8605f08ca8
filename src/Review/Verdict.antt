-- ===== src/Review/Verdict.antt =====
-- internal/review/review.go: the report on a change, and whether it makes the check fail.
use optictrace.Prelude.{
  ℕ, ◌+◌, Bool, true, false, ◌||◌, List, [], ◌∷◌, Text, codes, beq, any, ltb, if◌then◌else◌, ◌≡◌,
  refl, arith,
}
use optictrace.Review.Diff.{Severity, blocking, warn, info, PolicyChange}

-- What a verdict reads of a report; a leak and a finding about the specification are given by their
-- severities.
pub record Report : Type 0 where
  pub policy_changes : List PolicyChange
  pub leaks : List Text
  pub spec_findings : List Text

abbrev pub is_blocking : Severity → Bool
is_blocking blocking = true
is_blocking warn = false
is_blocking info = false

unfoldable pub count_blocking : List PolicyChange → ℕ
count_blocking [] = 0
count_blocking (c ∷ cs) =
    if is_blocking c.severity then count_blocking cs + 1 else count_blocking cs

unfoldable pub count_breaking : List Text → ℕ
unfolding beq
count_breaking [] = 0
count_breaking (f ∷ fs) =
    if beq f (codes "breaking") then count_breaking fs + 1 else count_breaking fs

unfoldable pub regressions : Report → ℕ
unfolding count_blocking
regressions r = count_blocking r.policy_changes

unfoldable pub breaking_for_clients : Report → ℕ
unfolding count_breaking
breaking_for_clients r = count_breaking r.spec_findings

unfoldable pub attributable : Report → Bool
attributable r = ltb 0 (regressions r) || ltb 0 (breaking_for_clients r)

abbrev pub critical : Text
critical = codes "critical"

abbrev pub high : Text
high = codes "high"

-- Blocking
unfoldable pub blocks : Report → Text → Bool
unfolding attributable beq
blocks r fail_on =
    if beq fail_on (codes "never")
    then false
    else if attributable r
    then true
    else if beq fail_on critical
    then any (λ s. beq s critical) r.leaks
    else if beq fail_on high
    then any (λ s. beq s critical || beq s high) r.leaks
    else false

any_more :
    (f g : Text → Bool) (xs : List Text)
    → ((x : Text) → f x ≡ true → g x ≡ true)
    → any f xs ≡ true
    → any g xs ≡ true
any_more f g [] h e = e
any_more f g (x ∷ xs) h e = ground (arith, h x, any_more f g xs h)

-- The levels of failure are ordered: what fails at `regression` fails at `critical`, what fails
-- there fails at `high`, and nothing fails at `never`.
pub blocks_ordered :
    (r : Report)
    → (blocks r (codes "regression") ≡ true → blocks r critical ≡ true)
      × (blocks r critical ≡ true → blocks r high ≡ true)
      × (blocks r (codes "never") ≡ false)
unfolding blocks
blocks_ordered r = (
  λ h. ground arith,
  λ h. ground (
    arith,
    any_more (λ s. beq s critical) (λ s. beq s critical || beq s high) r.leaks
        (λ s e. ground arith),
  ),
  refl,
)
