-- ===== src/Trace/Tests.antt =====
-- Runs of the trace context.
use optictrace.Prelude.{◌*◌, true, false, [], ◌∷◌, Text, codes, beq, length, ◌≡◌, refl, arith}
use optictrace.Trace.{Context, header, from_header, is_hex, hex_encode}
use optictrace.Trace.Roundtrip.{IsId, from_header-header}
use optictrace.Trace.Resolved.{IsResolved, from_header-IsResolved, is_hex-hex_encode}

abbrev trace_id : Text
trace_id = codes "4bf92f3577b34da6a3ce929d0e0e4736"

abbrev span_id : Text
span_id = codes "00f067aa0ba902b7"

abbrev context : Context
context = record {
  trace_id = trace_id;
  span_id = span_id;
  parent_span_id = [];
  sampled = true;
  route = [];
  inherited = false;
}

trace_id-IsId : IsId 32 trace_id
trace_id-IsId = unfold is_hex beq in (refl, refl)

span_id-IsId : IsId 16 span_id
span_id-IsId = unfold is_hex beq in (refl, refl)

from_header-header_example :
    from_header
      (codes "b7ad6b7169203331")
      (codes "0af7651916cd43dd8448eb211c80319c")
      (header context)
    ≡ record {
      trace_id = trace_id;
      span_id = codes "b7ad6b7169203331";
      parent_span_id = span_id;
      sampled = true;
      route = [];
      inherited = true;
    }
from_header-header_example =
    from_header-header context (codes "b7ad6b7169203331") (codes "0af7651916cd43dd8448eb211c80319c")
      trace_id-IsId span_id-IsId

from_header-IsResolved_example :
    IsResolved span_id trace_id (from_header span_id trace_id (codes "00-zz-01"))
from_header-IsResolved_example =
    from_header-IsResolved span_id trace_id (codes "00-zz-01") trace_id-IsId

abbrev bytes : Text
bytes = 0 ∷ 175 ∷ 255 ∷ []

is_hex-hex_encode_example : is_hex (hex_encode bytes) (2 * length bytes) ≡ true
is_hex-hex_encode_example = is_hex-hex_encode bytes (omega arith, (omega arith, (omega arith, tt)))
