-- ===== src/Trace/Roundtrip.antt =====
-- internal/tracectx/tracectx.go: Header followed by FromHeader.
use optictrace.Prelude.{
  ℕ, ◌≡◌, Bool, true, false, not, [], ◌∷◌, ◌++◌, Text, codes, beq, every, ◌==◌, trim_space,
  trim-clean, ◌%◌, split_by, is_space, arith, refl,
}
use optictrace.Prelude.{joins}
use optictrace.Trace.{
  Context, header, dash, flags_of, is_hex_digit, is_hex, zeros, is_usable, from_header, parse_hex,
  hex_value,
}

-- Splitting at a byte that does not stand in the first piece.
split_by-append :
    (sep : ℕ) (s t : Text)
    → every (λ c. not (c == sep)) s ≡ true
    → split_by sep (s ++ sep ∷ t) ≡ s ∷ split_by sep t
unfolding split_by
split_by-append sep [] t h = ground arith
split_by-append sep (c ∷ s) t h = ground (arith, split_by-append sep s t)

split_by-none :
    (sep : ℕ) (s : Text) → every (λ c. not (c == sep)) s ≡ true → split_by sep s ≡ s ∷ []
unfolding split_by
split_by-none sep [] h = refl
split_by-none sep (c ∷ s) h = ground (arith, split_by-none sep s)

hex_no_dash : (s : Text) → every is_hex_digit s ≡ true → every (λ c. not (c == dash)) s ≡ true
unfolding is_hex_digit
hex_no_dash [] h = refl
hex_no_dash (c ∷ s) h = ground (arith, hex_no_dash s)

is_hex-digits : (s : Text) (n : ℕ) → is_hex s n ≡ true → every is_hex_digit s ≡ true
unfolding is_hex
is_hex-digits s n h = ground arith

-- An id that the format allows: so many hexadecimal digits, and not all zero.
abbrev pub IsId : ℕ → Text → Type 0
IsId n s = (is_hex s n ≡ true) × (beq s (zeros n) ≡ false)

assoc_end :
    (t s : Text) (z : ℕ)
    → codes "00-" ++ (t ++ dash ∷ (s ++ dash ∷ b'0' ∷ z ∷ []))
      ≡ (codes "00-" ++ (t ++ dash ∷ (s ++ dash ∷ b'0' ∷ []))) ++ z ∷ []
assoc_end t s z = simp joins

split_four :
    (a b c d : Text)
    → every (λ x. not (x == dash)) a ≡ true
    → every (λ x. not (x == dash)) b ≡ true
    → every (λ x. not (x == dash)) c ≡ true
    → every (λ x. not (x == dash)) d ≡ true
    → split_by dash (a ++ dash ∷ (b ++ dash ∷ (c ++ dash ∷ d))) ≡ a ∷ b ∷ c ∷ d ∷ []
split_four a b c d ha hb hc hd = rw (
  split_by-append dash a (b ++ dash ∷ (c ++ dash ∷ d)) ha,
  split_by-append dash b (c ++ dash ∷ d) hb,
  split_by-append dash c d hc,
  split_by-none dash d hd,
)

flags_no_dash : (b : Bool) → every (λ x. not (x == dash)) (flags_of b) ≡ true
flags_no_dash true = refl
flags_no_dash false = refl

split-header :
    (c : Context)
    → IsId 32 c.trace_id
    → IsId 16 c.span_id
    → split_by dash (header c) ≡ codes "00" ∷ c.trace_id ∷ c.span_id ∷ flags_of c.sampled ∷ []
unfolding header
split-header c (ht, _) (hs, _) =
    split_four (codes "00") c.trace_id c.span_id (flags_of c.sampled) refl
      (hex_no_dash _ (is_hex-digits c.trace_id 32 ht))
      (hex_no_dash _ (is_hex-digits c.span_id 16 hs)) (flags_no_dash c.sampled)

header_end :
    (t s : Text) (b : Bool)
    → (m : Text) × (z : ℕ) × (codes "00-" ++ (t ++ dash ∷ (s ++ dash ∷ flags_of b)) ≡ m ++ z ∷ [])
      × (is_space z ≡ false)
header_end t s true =
    (codes "00-" ++ (t ++ dash ∷ (s ++ dash ∷ b'0' ∷ [])), b'1', assoc_end t s b'1', refl)
header_end t s false =
    (codes "00-" ++ (t ++ dash ∷ (s ++ dash ∷ b'0' ∷ [])), b'0', assoc_end t s b'0', refl)

trim-header : (c : Context) → trim_space (header c) ≡ header c
unfolding header trim_space
trim-header c =
    let (m, z, e, h) = header_end c.trace_id c.span_id c.sampled in
    trim-clean is_space b'0' z _ m refl h e

usable-header :
    (c : Context)
    → IsId 32 c.trace_id
    → IsId 16 c.span_id
    → is_usable (codes "00") c.trace_id c.span_id (flags_of c.sampled) ≡ true
unfolding is_usable is_hex is_hex_digit beq
usable-header c ht hs = ground arith

sampled-flags : (b : Bool) → (parse_hex 0 (flags_of b) % 2 == 1) ≡ b
unfolding hex_value
sampled-flags true = refl
sampled-flags false = refl

-- Resolving the header of a context with valid ids gives its trace id, its span as parent and its
-- sampling decision.
pub from_header-header :
    (c : Context) (span_id trace_id : Text)
    → IsId 32 c.trace_id
    → IsId 16 c.span_id
    → from_header span_id trace_id (header c) ≡ record {
      trace_id = c.trace_id;
      span_id = span_id;
      parent_span_id = c.span_id;
      sampled = c.sampled;
      route = [];
      inherited = true;
    }
unfolding from_header
from_header-header c span_id trace_id ht hs =
    rw (trim-header c, split-header c ht hs, usable-header c ht hs, sampled-flags c.sampled)
