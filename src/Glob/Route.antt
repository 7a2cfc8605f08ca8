-- ===== src/Glob/Route.antt =====
-- internal/engine/engine.go, NormalizeRoute: segments that look like identifiers become ":id".
pub mod Ends
pub mod Stable
use optictrace.Prelude.{
  ℕ, Bool, false, not, ◌&&◌, ◌||◌, List, [], ◌∷◌, Text, codes, every, length, is_empty, leb, ◌==◌,
  if◌then◌else◌, map, join_by, split_by,
}
use optictrace.Glob.{slash, split_path}

abbrev pub is_digit : ℕ → Bool
is_digit c = leb b'0' c && leb c b'9'

abbrev pub is_hex_byte : ℕ → Bool
is_hex_byte c = is_digit c || (leb b'a' c && leb c b'f') || (leb b'A' c && leb c b'F')

-- ^\d+$
unfoldable pub is_number : Text → Bool
is_number s = not (is_empty s) && every is_digit s

-- ^[0-9a-fA-F]{16,}$
unfoldable pub is_long_hex : Text → Bool
is_long_hex s = leb 16 (length s) && every is_hex_byte s

abbrev pub is_hex_run : ℕ → Text → Bool
is_hex_run n s = length s == n && every is_hex_byte s

abbrev pub are_runs : List Text → Bool
are_runs (a ∷ b ∷ c ∷ d ∷ e ∷ []) =
    is_hex_run 8 a && is_hex_run 4 b && is_hex_run 4 c && is_hex_run 4 d && is_hex_run 12 e
are_runs _ = false

-- ^[0-9a-fA-F]{8}-[0-9a-fA-F]{4}-[0-9a-fA-F]{4}-[0-9a-fA-F]{4}-[0-9a-fA-F]{12}$
unfoldable pub is_uuid : Text → Bool
unfolding split_by
is_uuid s = are_runs (split_by b'-' s)

unfoldable pub is_identifier : Text → Bool
unfolding is_number is_uuid is_long_hex
is_identifier s = is_number s || is_uuid s || is_long_hex s

abbrev pub id_segment : Text
id_segment = codes ":id"

abbrev pub normalize_segment : Text → Text
normalize_segment s = if is_identifier s then id_segment else s

unfoldable pub normalize_route : Text → Text
unfolding split_path is_identifier join_by
normalize_route url_path = slash ∷ join_by slash (map normalize_segment (split_path url_path))
