-- ===== src/Trace/Resolved.antt =====
-- internal/tracectx/tracectx.go, FromHeader: the contexts that it resolves.
use optictrace.Prelude.{
  ℕ, ◌*◌, ◌<◌, ◌≡◌, true, false, List, [], ◌∷◌, Text, every, All, length, trim_space, ◌%◌, ◌/◌,
  if_cases, split_by, arith, refl, ap, ◌∙◌,
}
use optictrace.Trace.{
  Context, header, dash, is_hex_digit, is_hex, root, is_usable, from_parts, from_header, hex_encode,
  hex_char,
}
use optictrace.Trace.Roundtrip.{IsId, from_header-header}

-- What a resolved context guarantees, for the fresh ids that it was given.
pub record IsResolved (span_id trace_id : Text) (c : Context) : Type 0 where
  pub own_span : c.span_id ≡ span_id
  pub valid_trace : IsId 32 c.trace_id
  pub continues : c.inherited ≡ true → IsId 16 c.parent_span_id
  pub starts :
      c.inherited ≡ false → (c.trace_id ≡ trace_id) × (c.parent_span_id ≡ []) × (c.sampled ≡ false)

root-IsResolved :
    (span_id trace_id : Text)
    → IsId 32 trace_id
    → IsResolved span_id trace_id (root span_id trace_id)
unfolding root
root-IsResolved span_id trace_id h = record {
  own_span = refl;
  valid_trace = h;
  continues = λ e. absurd (ground arith);
  starts = λ e. (refl, refl, refl);
}

usable-IsId :
    (version tid pid flags : Text)
    → is_usable version tid pid flags ≡ true
    → IsId 32 tid × IsId 16 pid
unfolding is_usable
usable-IsId version tid pid flags h = (ground arith, ground arith)

from_parts-IsResolved :
    (span_id trace_id : Text) (parts : List Text)
    → IsId 32 trace_id
    → IsResolved span_id trace_id (from_parts span_id trace_id parts)
from_parts-IsResolved span_id trace_id (version ∷ tid ∷ pid ∷ flags ∷ []) h =
    if_cases (IsResolved span_id trace_id) (is_usable version tid pid flags) _ _
      (λ e.
        let (ht, hp) = usable-IsId version tid pid flags e in
        record {
          own_span = refl;
          valid_trace = ht;
          continues = λ _. hp;
          starts = λ q. absurd (ground arith);
        })
      (λ e. root-IsResolved span_id trace_id h)
from_parts-IsResolved span_id trace_id _ h = root-IsResolved span_id trace_id h

-- Whatever header arrives, the resolved context has the fresh span id and a valid trace id; an
-- inherited one has a valid parent, and any other one is a root with the fresh trace id, no parent
-- and no sampling. The fresh trace id is assumed valid.
pub from_header-IsResolved :
    (span_id trace_id raw : Text)
    → IsId 32 trace_id
    → IsResolved span_id trace_id (from_header span_id trace_id raw)
unfolding from_header
from_header-IsResolved span_id trace_id raw h =
    from_parts-IsResolved span_id trace_id (split_by dash (trim_space raw)) h

-- A hop that resolves the header that another hop sends has its trace id, its sampling decision
-- and its span as parent, whatever that one received, if that one drew a valid trace and span id.
pub from_header_hop :
    (raw s1 t1 s2 t2 : Text)
    → IsId 32 t1
    → IsId 16 s1
    → let c = from_header s1 t1 raw in
      let d = from_header s2 t2 (header c) in
      (d.trace_id ≡ c.trace_id) × (d.sampled ≡ c.sampled) × (d.parent_span_id ≡ s1)
from_header_hop raw s1 t1 s2 t2 ht hs =
    let r = from_header-IsResolved s1 t1 raw ht in
    let c = from_header s1 t1 raw in
    let e = from_header-header c s2 t2 r.valid_trace (rw r.own_span hs) in
    (ap (λ x. x.trace_id) e, ap (λ x. x.sampled) e, ap (λ x. x.parent_span_id) e ∙ r.own_span)

length-hex_encode : (bs : Text) → length (hex_encode bs) ≡ 2 * length bs
unfolding hex_encode
length-hex_encode [] = refl
length-hex_encode (b ∷ bs) = omega (arith, length-hex_encode bs)

hex_char-digit : (d : ℕ) → d < 16 → is_hex_digit (hex_char d) ≡ true
unfolding is_hex_digit
hex_char-digit d h = ground arith

every-hex_encode : (bs : Text) → All (λ b. b < 256) bs → every is_hex_digit (hex_encode bs) ≡ true
unfolding hex_encode
every-hex_encode [] h = refl
every-hex_encode (b ∷ bs) (lt, h) =
    rw (hex_char-digit (b / 16) (omega arith), hex_char-digit (b % 16) (omega arith))
      (every-hex_encode bs h)

-- The encoding of bytes is as many hexadecimal digits as twice the bytes.
pub is_hex-hex_encode :
    (bytes : Text) → All (λ b. b < 256) bytes → is_hex (hex_encode bytes) (2 * length bytes) ≡ true
unfolding is_hex
is_hex-hex_encode bytes h = rw (length-hex_encode bytes, every-hex_encode bytes h) (ground arith)
