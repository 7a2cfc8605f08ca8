-- ===== src/Trace.antt =====
-- internal/tracectx/tracectx.go: W3C trace context.
mod Tests
pub mod Roundtrip
pub mod Resolved
use optictrace.Prelude.{
  ℕ, zero, suc, ◌+◌, ◌-◌, ◌*◌, ◌/◌, ◌%◌, Bool, true, false, not, ◌&&◌, ◌||◌, Option, none, some,
  List, [], ◌∷◌, ◌++◌, Text, codes, beq, lookup, every, length, leb, ltb, ◌==◌, if◌then◌else◌,
  trim_space, split_by, to_lower,
}

pub record Context : Type 0 where
  pub trace_id : Text
  pub span_id : Text
  pub parent_span_id : Text
  pub sampled : Bool
  pub route : Text
  pub inherited : Bool

abbrev pub dash : ℕ
dash = b'-'

abbrev pub flags_of : Bool → Text
flags_of sampled = if sampled then codes "01" else codes "00"

-- Context.Header
unfoldable pub header : Context → Text
header c = codes "00-" ++ (c.trace_id ++ dash ∷ (c.span_id ++ dash ∷ flags_of c.sampled))

unfoldable pub is_hex_digit : ℕ → Bool
is_hex_digit c =
    (leb b'0' c && leb c b'9') || (leb b'a' c && leb c b'f') || (leb b'A' c && leb c b'F')

unfoldable pub is_hex : Text → ℕ → Bool
unfolding is_hex_digit
is_hex s n = length s == n && every is_hex_digit s

-- strings.Repeat("0", n)
abbrev pub zeros : ℕ → Text
zeros zero = []
zeros (suc n) = b'0' ∷ zeros n

-- The value of a hexadecimal digit.
unfoldable pub hex_value : ℕ → ℕ
hex_value c = if leb c b'9' then c - b'0' else if leb b'a' c then c - b'a' + 10 else c - b'A' + 10

-- strconv.ParseUint(flags, 16, 8) of digits.
abbrev pub parse_hex : ℕ → Text → ℕ
parse_hex acc [] = acc
parse_hex acc (c ∷ s) = parse_hex (acc * 16 + hex_value c) s

-- A fresh span id and a fresh trace id stand for what `RandomHex` draws.
unfoldable pub root : Text → Text → Context
root span_id trace_id = record {
  trace_id = trace_id;
  span_id = span_id;
  parent_span_id = [];
  sampled = false;
  route = [];
  inherited = false;
}

unfoldable pub is_usable : Text → Text → Text → Text → Bool
unfolding is_hex beq
is_usable version tid pid flags =
    beq version (codes "00")
    && is_hex tid 32
    && is_hex pid 16
    && is_hex flags 2
    && not (beq tid (zeros 32))
    && not (beq pid (zeros 16))

abbrev pub from_parts : Text → Text → List Text → Context
from_parts span_id trace_id (version ∷ tid ∷ pid ∷ flags ∷ []) =
    if is_usable version tid pid flags
    then record {
      trace_id = tid;
      span_id = span_id;
      parent_span_id = pid;
      sampled = parse_hex 0 flags % 2 == 1;
      route = [];
      inherited = true;
    }
    else root span_id trace_id
from_parts span_id trace_id _ = root span_id trace_id

unfoldable pub from_header : Text → Text → Text → Context
unfolding root is_usable split_by trim_space hex_value
from_header span_id trace_id raw = from_parts span_id trace_id (split_by dash (trim_space raw))

abbrev pub first_fold : Text → List (Text × Text) → Text
first_fold name [] = []
first_fold name ((k, v) ∷ headers) =
    if beq (to_lower k) (to_lower name) then v else first_fold name headers

abbrev pub exact_or_fold : Text → List (Text × Text) → Option Text → Text
exact_or_fold name headers (some v) = v
exact_or_fold name headers none = first_fold name headers

-- Lookup
unfoldable pub find_header : List (Text × Text) → Text → Text
unfolding lookup beq to_lower
find_header headers name = exact_or_fold name headers (lookup name headers)

unfoldable pub from_map : Text → Text → List (Text × Text) → Context
unfolding from_header find_header
from_map span_id trace_id headers =
    from_header span_id trace_id (find_header headers (codes "traceparent"))

-- hex.EncodeToString
abbrev pub hex_char : ℕ → ℕ
hex_char d = if ltb d 10 then b'0' + d else b'a' + (d - 10)

unfoldable pub hex_encode : Text → Text
hex_encode [] = []
hex_encode (b ∷ bs) = hex_char (b / 16) ∷ hex_char (b % 16) ∷ hex_encode bs
