-- ===== src/Scan/Digits.antt =====
-- internal/scan/detect.go and custom.go: which slips of the pen the checksums find.
use optictrace.Prelude.{
  ℕ, ◌+◌, ◌-◌, ◌%◌, ◌<◌, Bool, true, false, not, List, [], ◌∷◌, ◌++◌, Text, reverse, ◌≡◌, ◌≢◌, refl,
  arith, Bool-cases, inl, inr, ◌∙◌, ap, sym, append_assoc,
}
use mathlib.Core.List.{reverse-append, reverse-cons}
use optictrace.Glob.Route.{is_digit}
use optictrace.Scan.Verify.{digits_of, luhn_digit, luhn_sum, luhn_valid}

-- Doubling a digit is a permutation of the digits.
luhn_digit-injective :
    (doubled : Bool) (a b n : ℕ)
    → a < 10
    → b < 10
    → a ≢ b
    → (luhn_digit doubled a + n) % 10 ≢ (luhn_digit doubled b + n) % 10
luhn_digit-injective true a b n ha hb ne = ground arith
luhn_digit-injective false a b n ha hb ne = ground arith

luhn_sum-slip :
    (doubled : Bool) (xs ys : List ℕ) (a b : ℕ)
    → a < 10
    → b < 10
    → a ≢ b
    → luhn_sum doubled (xs ++ a ∷ ys) % 10 ≢ luhn_sum doubled (xs ++ b ∷ ys) % 10
unfolding luhn_sum
luhn_sum-slip doubled [] ys a b ha hb ne =
    luhn_digit-injective doubled a b (luhn_sum (not doubled) ys) ha hb ne
luhn_sum-slip doubled (x ∷ xs) ys a b ha hb ne =
    let rest = luhn_sum-slip (not doubled) xs ys a b ha hb ne in omega arith

pub digits_of-append : (s t : Text) → digits_of (s ++ t) ≡ digits_of s ++ digits_of t
unfolding digits_of
digits_of-append [] t = refl
digits_of-append (c ∷ s) t = ground (arith, digits_of-append s t)

pub digits_of-digit :
    (x : ℕ) (v : Text) → is_digit x ≡ true → digits_of (x ∷ v) ≡ (x - b'0') ∷ digits_of v
unfolding digits_of
digits_of-digit x v h = rw h refl

-- The digits from the last one on, around one of them.
pub reversed :
    (u v : Text) (x : ℕ)
    → is_digit x ≡ true
    → reverse (digits_of (u ++ x ∷ v)) ≡ reverse (digits_of v) ++ (x - b'0') ∷ reverse (digits_of u)
reversed u v x h =
    ap reverse
      (digits_of-append u (x ∷ v) ∙ ap (λ (t : List ℕ). digits_of u ++ t) (digits_of-digit x v h))
    ∙ reverse-append (digits_of u) ((x - b'0') ∷ digits_of v)
    ∙ ap (λ (t : List ℕ). t ++ reverse (digits_of u)) (reverse-cons (x - b'0') (digits_of v))
    ∙ append_assoc (reverse (digits_of v)) ((x - b'0') ∷ []) (reverse (digits_of u))

luhn_valid-sum : (s : Text) → luhn_valid s ≡ true → luhn_sum false (reverse (digits_of s)) % 10 ≡ 0
unfolding luhn_valid
luhn_valid-sum s h = ground arith

pub digit_bounds :
    (x y : ℕ)
    → is_digit x ≡ true
    → is_digit y ≡ true
    → x ≢ y
    → (x - b'0' < 10) × (y - b'0' < 10) × (x - b'0' ≢ y - b'0')
digit_bounds x y hx hy ne = (ground arith, ground arith, ground arith)

-- If one digit of a text that passes the Luhn check is replaced by another digit, the text does
-- not pass.
pub luhn_valid-slip :
    (u v : Text) (x y : ℕ)
    → is_digit x ≡ true
    → is_digit y ≡ true
    → x ≢ y
    → luhn_valid (u ++ x ∷ v) ≡ true
    → luhn_valid (u ++ y ∷ v) ≡ false
luhn_valid-slip u v x y hx hy ne h = elim (Bool-cases (luhn_valid (u ++ y ∷ v))) [
  | inr n ↦ n
  | inl e ↦
      let (bx, by, apart) = digit_bounds x y hx hy ne in
      let sx = luhn_valid-sum (u ++ x ∷ v) h in
      let sy = luhn_valid-sum (u ++ y ∷ v) e in
      absurd (
        luhn_sum-slip false (reverse (digits_of v)) (reverse (digits_of u)) _ _ bx by apart
          (rw (reversed u v x hx) at sx ∙ sym (rw (reversed u v y hy) at sy)))
]
