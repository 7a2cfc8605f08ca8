-- ===== src/Scan/Slips.antt =====
-- internal/scan/custom.go, verhoeffValid: a mistyped digit, and two digits the wrong way round.
use optictrace.Prelude.{
  ℕ, ◌-◌, ◌<◌, true, false, List, [], ◌∷◌, ◌++◌, Text, All, reverse, ◌≡◌, ◌≢◌, arith, Bool-cases,
  inl, inr, subst, ◌∙◌, ap, sym, append_assoc, if_cases,
}
use mathlib.Core.List.{reverse-cons}
use optictrace.Glob.Route.{is_digit}
use optictrace.Scan.Verify.{digits_of, verhoeff_from, verhoeff_valid}
use optictrace.Scan.Digits.{reversed, digit_bounds, digits_of-digit}
use optictrace.Scan.Dihedral.{verhoeff_from-slip, verhoeff_from-swap}

All-append : (P : ℕ → Type 0) (xs ys : List ℕ) → All P xs → All P ys → All P (xs ++ ys)
All-append P [] ys h k = k
All-append P (x ∷ xs) ys h k = (h.0, All-append P xs ys h.1 k)

All-reverse : (P : ℕ → Type 0) (xs : List ℕ) → All P xs → All P (reverse xs)
All-reverse P [] h = h
All-reverse P (x ∷ xs) h =
    subst (λ (l : List ℕ). All P l) (sym (reverse-cons x xs))
      (All-append P (reverse xs) (x ∷ []) (All-reverse P xs h.1) (h.0, tt))

abbrev IsSmall : ℕ → Type 0
IsSmall d = d < 10

digits_of-IsSmall : (s : Text) → All IsSmall (digits_of s)
unfolding digits_of
digits_of-IsSmall [] = tt
digits_of-IsSmall (c ∷ s) =
    if_cases (All IsSmall) (is_digit c) _ _ (λ e. (ground (arith, e), digits_of-IsSmall s))
      (λ e. digits_of-IsSmall s)

small : (s : Text) → All IsSmall (reverse (digits_of s))
small s = All-reverse IsSmall (digits_of s) (digits_of-IsSmall s)

verhoeff_valid-state :
    (s : Text) → verhoeff_valid s ≡ true → verhoeff_from 0 0 (reverse (digits_of s)) ≡ 0
unfolding verhoeff_valid
verhoeff_valid-state s h = ground arith

-- Two texts whose digits lead to different states are not both valid.
not_both :
    (s t : Text)
    → verhoeff_from 0 0 (reverse (digits_of s)) ≢ verhoeff_from 0 0 (reverse (digits_of t))
    → verhoeff_valid s ≡ true
    → verhoeff_valid t ≡ false
not_both s t apart h = elim (Bool-cases (verhoeff_valid t)) [
  | inr n ↦ n
  | inl e ↦ absurd (apart (verhoeff_valid-state s h ∙ sym (verhoeff_valid-state t e)))
]

-- One digit replaced by another is found out.
pub verhoeff_valid-slip :
    (u v : Text) (x y : ℕ)
    → is_digit x ≡ true
    → is_digit y ≡ true
    → x ≢ y
    → verhoeff_valid (u ++ x ∷ v) ≡ true
    → verhoeff_valid (u ++ y ∷ v) ≡ false
verhoeff_valid-slip u v x y hx hy ne =
    let (bx, by, apart) = digit_bounds x y hx hy ne in
    not_both (u ++ x ∷ v) (u ++ y ∷ v) (
      rw (reversed u v x hx, reversed u v y hy)
        (verhoeff_from-slip 0 0 (reverse (digits_of v)) (reverse (digits_of u)) _ _ (omega arith) bx
          by apart (small v) (small u)))

reversed_two :
    (u v : Text) (x y : ℕ)
    → is_digit x ≡ true
    → is_digit y ≡ true
    → reverse (digits_of (u ++ x ∷ y ∷ v))
      ≡ reverse (digits_of v) ++ (y - b'0') ∷ (x - b'0') ∷ reverse (digits_of u)
reversed_two u v x y hx hy =
    reversed u (y ∷ v) x hx
    ∙ ap (λ (t : List ℕ). reverse t ++ (x - b'0') ∷ reverse (digits_of u)) (digits_of-digit y v hy)
    ∙ ap (λ (t : List ℕ). t ++ (x - b'0') ∷ reverse (digits_of u))
        (reverse-cons (y - b'0') (digits_of v))
    ∙ append_assoc (reverse (digits_of v)) ((y - b'0') ∷ []) ((x - b'0') ∷ reverse (digits_of u))

-- If two different digits that stand side by side in a text that passes the Verhoeff check are
-- swapped, the text does not pass.
pub verhoeff_valid-swap :
    (u v : Text) (x y : ℕ)
    → is_digit x ≡ true
    → is_digit y ≡ true
    → x ≢ y
    → verhoeff_valid (u ++ x ∷ y ∷ v) ≡ true
    → verhoeff_valid (u ++ y ∷ x ∷ v) ≡ false
verhoeff_valid-swap u v x y hx hy ne =
    let (bx, by, apart) = digit_bounds x y hx hy ne in
    not_both (u ++ x ∷ y ∷ v) (u ++ y ∷ x ∷ v) (
      rw (reversed_two u v x y hx hy, reversed_two u v y x hy hx)
        (verhoeff_from-swap 0 0 (reverse (digits_of v)) (reverse (digits_of u)) _ _ (omega arith) by
          bx (λ e. apart (sym e)) (small v) (small u)))
