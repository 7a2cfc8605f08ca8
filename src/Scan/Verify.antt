-- ===== src/Scan/Verify.antt =====
-- internal/scan/detect.go and custom.go: the checksums that confirm a match, on ASCII text.
use optictrace.Prelude.{
  ℕ, zero, suc, ◌+◌, ◌-◌, ◌*◌, ◌%◌, Bool, true, false, not, ◌&&◌, ◌||◌, Option, none, some, List,
  [], ◌∷◌, ◌++◌, Text, codes, beq, every, length, take, drop, leb, ltb, ◌==◌, if◌then◌else◌,
  reverse, to_upper,
}
use optictrace.Glob.Route.{is_digit}

-- `for _, r := range s { if r >= '0' && r <= '9' { … } }`
unfoldable pub digits_of : Text → List ℕ
digits_of [] = []
digits_of (c ∷ s) = let rest = digits_of s in if is_digit c then (c - b'0') ∷ rest else rest

abbrev pub are_same : List ℕ → Bool
are_same [] = true
are_same (d ∷ ds) = every (λ e. e == d) ds

abbrev pub luhn_digit : Bool → ℕ → ℕ
luhn_digit doubled d = if doubled then (if ltb 9 (2 * d) then 2 * d - 9 else 2 * d) else d

-- The sum over the digits from the last one on, `double` being whether the next one is doubled.
unfoldable pub luhn_sum : Bool → List ℕ → ℕ
luhn_sum doubled [] = 0
luhn_sum doubled (d ∷ ds) = luhn_digit doubled d + luhn_sum (not doubled) ds

unfoldable pub luhn_valid : Text → Bool
unfolding digits_of luhn_sum
luhn_valid s =
    let digits = digits_of s in
    leb 13 (length digits)
    && leb (length digits) 19
    && not (are_same digits)
    && luhn_sum false (reverse digits) % 10 == 0

-- One step of the remainder, or none at a byte that is neither digit nor capital.
abbrev pub iban_step : ℕ → ℕ → Option ℕ
iban_step rem c =
    if is_digit c
    then some ((rem * 10 + (c - b'0')) % 97)
    else if leb b'A' c && leb c b'Z'
    then some ((rem * 100 + (c - b'A' + 10)) % 97)
    else none

unfoldable pub iban_rem : Option ℕ → Text → Option ℕ
iban_rem none s = none
iban_rem (some rem) [] = some rem
iban_rem (some rem) (c ∷ s) = iban_rem (iban_step rem c) s

-- strings.ReplaceAll(s, " ", "")
abbrev pub without_spaces : Text → Text
without_spaces [] = []
without_spaces (c ∷ s) = let rest = without_spaces s in if c == b' ' then rest else c ∷ rest

abbrev pub is_one : Option ℕ → Bool
is_one none = false
is_one (some n) = n == 1

unfoldable pub iban_plausible : Text → Bool
unfolding iban_rem to_upper
iban_plausible s =
    let t = to_upper (without_spaces s) in
    leb 15 (length t) && leb (length t) 34 && is_one (iban_rem (some 0) (drop 4 t ++ take 4 t))

-- On a match of three, two and four digits with a byte between.
unfoldable pub ssn_plausible : Text → Bool
unfolding beq
ssn_plausible s =
    let area = take 3 s in
    let group = take 2 (drop 4 s) in
    let serial = take 4 (drop 7 s) in
    not (beq area (codes "000") || beq area (codes "666") || beq (take 1 area) (codes "9"))
    && not (beq group (codes "00") || beq serial (codes "0000"))

abbrev pub at : List ℕ → ℕ → ℕ
at [] n = 0
at (x ∷ xs) zero = x
at (x ∷ xs) (suc n) = at xs n

abbrev pub row : List (List ℕ) → ℕ → List ℕ
row [] n = []
row (r ∷ rs) zero = r
row (r ∷ rs) (suc n) = row rs n

abbrev pub digits : ℕ → ℕ → ℕ → ℕ → ℕ → ℕ → ℕ → ℕ → ℕ → ℕ → List ℕ
digits a b c d e f g h i j = a ∷ b ∷ c ∷ d ∷ e ∷ f ∷ g ∷ h ∷ i ∷ j ∷ []

abbrev pub verhoeff_d : List (List ℕ)
verhoeff_d =
    digits 0 1 2 3 4 5 6 7 8 9
    ∷ digits 1 2 3 4 0 6 7 8 9 5
    ∷ digits 2 3 4 0 1 7 8 9 5 6
    ∷ digits 3 4 0 1 2 8 9 5 6 7
    ∷ digits 4 0 1 2 3 9 5 6 7 8
    ∷ digits 5 9 8 7 6 0 4 3 2 1
    ∷ digits 6 5 9 8 7 1 0 4 3 2
    ∷ digits 7 6 5 9 8 2 1 0 4 3
    ∷ digits 8 7 6 5 9 3 2 1 0 4
    ∷ digits 9 8 7 6 5 4 3 2 1 0
    ∷ []

abbrev pub verhoeff_p : List (List ℕ)
verhoeff_p =
    digits 0 1 2 3 4 5 6 7 8 9
    ∷ digits 1 5 7 6 2 8 3 0 9 4
    ∷ digits 5 8 0 3 7 9 6 1 4 2
    ∷ digits 8 9 1 6 0 4 3 5 2 7
    ∷ digits 9 4 5 3 1 2 6 8 7 0
    ∷ digits 4 2 8 6 5 7 3 9 0 1
    ∷ digits 2 7 9 3 8 0 6 4 1 5
    ∷ digits 7 0 4 6 9 1 3 2 5 8
    ∷ []

unfoldable pub times : ℕ → ℕ → ℕ
times c x = at (row verhoeff_d c) x

unfoldable pub permuted : ℕ → ℕ → ℕ
permuted i d = at (row verhoeff_p (i % 8)) d

-- The loop from the last digit on, at its position `i` with the state `c`.
unfoldable pub verhoeff_from : ℕ → ℕ → List ℕ → ℕ
unfolding times permuted
verhoeff_from i c [] = c
verhoeff_from i c (d ∷ ds) = verhoeff_from (i + 1) (times c (permuted i d)) ds

abbrev pub is_separator : ℕ → Bool
is_separator c = c == b' ' || c == b'-'

unfoldable pub verhoeff_valid : Text → Bool
unfolding digits_of verhoeff_from
verhoeff_valid s =
    every (λ c. is_digit c || is_separator c) s
    && leb 2 (length (digits_of s))
    && verhoeff_from 0 0 (reverse (digits_of s)) == 0
