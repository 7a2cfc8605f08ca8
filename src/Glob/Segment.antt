-- ===== src/Glob/Segment.antt =====
-- Go's path.Match on one segment of ASCII bytes: `*`, `?`, classes and escapes. Its callers treat
-- an error as no match, and so does `path_match`.
use optictrace.Prelude.{
  ℕ, zero, suc, Bool, true, false, not, ◌&&◌, ◌||◌, List, [], ◌∷◌, ◌++◌, Text, Option, none, some,
  length, leb, if◌then◌else◌, ◌==◌, is_empty, map, any, codes, beq, beq_iff, ◌≡◌, ◌≤◌, ◌↔◌, refl,
  arith,
}
use mathlib.Core.Bool.{xor}

pub data Token : Type 0 where
  any_run any_byte : Token
  class : Bool → List (ℕ × ℕ) → Token
  literal : ℕ → Token

abbrev backslash : ℕ
backslash = 92

-- A byte of a class, escaped or not, and what follows it.
class_byte : Text → Option (ℕ × Text)
class_byte [] = none
class_byte (c ∷ []) = if c == backslash || c == b'-' || c == b']' then none else some (c, [])
class_byte (c ∷ d ∷ t) =
    if c == backslash then some (d, t) else if c == b'-' || c == b']' then none else some (c, d ∷ t)

range_end : ℕ → Text → Option ((ℕ × ℕ) × Text)
range_end lo [] = none
range_end lo (c ∷ t) =
    if c == b'-'
    then elim (class_byte t) [ none ↦ none | some (hi, u) ↦ some ((lo, hi), u) ]
    else some ((lo, lo), c ∷ t)

-- The ranges up to the closing bracket; at least one.
class_ranges : ℕ → Text → List (ℕ × ℕ) → Option (List (ℕ × ℕ) × Text)
class_ranges zero t ranges = none
class_ranges (suc n) [] ranges = none
class_ranges (suc n) (c ∷ t) ranges = elim (c == b']' && not (is_empty ranges)) [
  | true ↦ some (ranges, t)
  | false ↦ elim (class_byte (c ∷ t)) [
    | none ↦ none
    | some (lo, u) ↦ elim (range_end lo u) [
      | none ↦ none
      | some (r, w) ↦ class_ranges n w (ranges ++ r ∷ [])
    ]
  ]
]

abbrev negated : Text → Bool × Text
negated [] = (false, [])
negated (c ∷ t) = if c == b'^' then (true, t) else (false, c ∷ t)

class_token : Bool × Text → Option (Token × Text)
class_token (negate, u) = elim (class_ranges (length u) u []) [
  | none ↦ none
  | some (ranges, w) ↦ some (class negate ranges, w)
]

escaped : Text → Option (Token × Text)
escaped [] = none
escaped (c ∷ t) = some (literal c, t)

next_token : ℕ → Text → Option (Token × Text)
next_token c t =
    if c == b'*'
    then some (any_run, t)
    else if c == b'?'
    then some (any_byte, t)
    else if c == b'['
    then class_token (negated t)
    else if c == backslash
    then escaped t
    else some (literal c, t)

-- One token takes at least one byte, so the length of the pattern is enough fuel.
tokens : ℕ → Text → Option (List Token)
tokens n [] = some []
tokens zero (c ∷ t) = none
tokens (suc n) (c ∷ t) = elim (next_token c t) [
  | none ↦ none
  | some (token, u) ↦ elim (tokens n u) [ none ↦ none | some rest ↦ some (token ∷ rest) ]
]

abbrev in_ranges : List (ℕ × ℕ) → ℕ → Bool
in_ranges ranges c = any (λ (lo, hi). leb lo c && leb c hi) ranges

-- `*` and `?` stop at a slash.
abbrev accepts : Token → ℕ → Bool
accepts any_run c = not (c == b'/')
accepts any_byte c = not (c == b'/')
accepts (class negate ranges) c = xor (in_ranges ranges c) negate
accepts (literal x) c = x == c

match_run : (Text → Bool) → Text → Bool
match_run rest [] = rest []
match_run rest (c ∷ s) = rest (c ∷ s) || (not (c == b'/') && match_run rest s)

match_tokens : List Token → Text → Bool
unfolding match_run xor
match_tokens [] s = is_empty s
match_tokens (any_run ∷ ts) s = match_run (match_tokens ts) s
match_tokens (t ∷ ts) [] = false
match_tokens (t ∷ ts) (c ∷ s) = accepts t c && match_tokens ts s

abbrev match_compiled : Option (List Token) → Text → Bool
match_compiled none s = false
match_compiled (some ts) s = match_tokens ts s

unfoldable pub path_match : Text → Text → Bool
unfolding tokens next_token class_token class_ranges class_byte range_end escaped match_tokens
path_match pattern s = match_compiled (tokens (length pattern) pattern) s

unfoldable pub is_meta : ℕ → Bool
is_meta c = c == b'*' || c == b'?' || c == b'[' || c == backslash

match_literals : (p s : Text) → match_tokens (map literal p) s ≡ beq p s
unfolding match_tokens beq
match_literals [] [] = refl
match_literals [] (c ∷ s) = refl
match_literals (x ∷ p) [] = refl
match_literals (x ∷ p) (c ∷ s) = rw (match_literals p s)

tokens-literal :
    (n : ℕ) (p : Text) → length p ≤ n → any is_meta p ≡ false → tokens n p ≡ some (map literal p)
unfolding tokens next_token is_meta
tokens-literal n [] h m = refl
tokens-literal zero (c ∷ p) h m = absurd (omega arith)
tokens-literal (suc n) (c ∷ p) h m = ground (arith, tokens-literal n p)

-- A pattern with no special byte matches itself and nothing else.
pub path_match-literal : (p s : Text) → any is_meta p ≡ false → (path_match p s ≡ true) ↔ (p ≡ s)
unfolding path_match
path_match-literal p s m =
    rw (tokens-literal (length p) p (omega arith) m, match_literals p s) (beq_iff p s)

class_example : path_match (codes "v[0-9a]*.go") (codes "v7.go") ≡ true
unfolding path_match
class_example = refl

escape_example : path_match (codes "a\\*") (codes "a*") ≡ true
unfolding path_match
escape_example = refl

bad_pattern : path_match (codes "a[") (codes "a[") ≡ false
unfolding path_match
bad_pattern = refl
