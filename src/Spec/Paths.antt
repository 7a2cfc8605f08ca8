-- ===== src/Spec/Paths.antt =====
-- internal/spec/infer.go and model.go: paths as templates with named parameters.
use optictrace.Prelude.{
  ℕ, ◌+◌, Bool, true, false, ◌&&◌, ◌||◌, Option, none, some, List, [], ◌∷◌, ◌++◌, Text, codes, beq,
  is_empty, leb, ◌==◌, if◌then◌else◌, starts_with, split_by, join_by, trim, to_upper, itoa,
}
use optictrace.Glob.{slash}
use optictrace.Glob.Route.{id_segment, normalize_route, is_digit}

-- splitSegs
unfoldable pub split_segs : Text → List Text
unfolding trim split_by
split_segs p = let t = trim (λ c. c == slash) p in if is_empty t then [] else split_by slash t

abbrev pub is_letter_or_digit : ℕ → Bool
is_letter_or_digit c = (leb b'a' c && leb c b'z') || (leb b'A' c && leb c b'Z') || is_digit c

abbrev pub filter_text : (ℕ → Bool) → Text → Text
filter_text p [] = []
filter_text p (c ∷ s) = let rest = filter_text p s in if p c then c ∷ rest else rest

-- strings.TrimSuffix(s, suffix) at a suffix of one byte.
abbrev pub trim_last : ℕ → Text → Text
trim_last c [] = []
trim_last c (d ∷ []) = if d == c then [] else d ∷ []
trim_last c (d ∷ e ∷ s) = d ∷ trim_last c (e ∷ s)

unfoldable pub param_name_for : Text → ℕ → Text
unfolding itoa
param_name_for resource ordinal =
    let r = filter_text is_letter_or_digit (trim_last b's' resource) in
    if is_empty r
    then (if ordinal == 0 then codes "id" else codes "id" ++ itoa (ordinal + 1))
    else r ++ codes "Id"

abbrev pub braces : Text → Text
braces name = b'{' ∷ name ++ b'}' ∷ []

-- The first segment has no resource before it.
abbrev pub name_after : Option Text → ℕ → Text
name_after none n = if n == 0 then codes "id" else codes "id" ++ itoa (n + 1)
name_after (some resource) n = param_name_for resource n

-- The segment before is the one that the loop has already replaced.
unfoldable pub name_params : Option Text → ℕ → List Text → List Text
unfolding param_name_for beq itoa
name_params before n [] = []
name_params before n (s ∷ segs) =
    if beq s id_segment
    then (let t = braces (name_after before n) in t ∷ name_params (some t) (n + 1) segs)
    else s ∷ name_params (some s) n segs

unfoldable pub open_api_path : Text → Text
unfolding normalize_route split_segs name_params join_by
open_api_path p = slash ∷ join_by slash (name_params none 0 (split_segs (normalize_route p)))

abbrev pub ends_with : ℕ → Text → Bool
ends_with c [] = false
ends_with c (d ∷ []) = d == c
ends_with c (d ∷ e ∷ s) = ends_with c (e ∷ s)

abbrev pub is_braced : Text → Bool
is_braced s = starts_with (codes "{") s && ends_with b'}' s

abbrev pub is_brace : ℕ → Bool
is_brace c = c == b'{' || c == b'}'

abbrev pub braced_names : List Text → List Text
braced_names [] = []
braced_names (s ∷ segs) =
    let rest = braced_names segs in if is_braced s then trim is_brace s ∷ rest else rest

unfoldable pub path_params : Text → List Text
unfolding split_segs trim starts_with
path_params tmpl = braced_names (split_segs tmpl)

-- exportName: FieldsFunc cuts at every byte that is no letter or digit, and drops what is empty.
abbrev pub export_from : Bool → Text → Text
export_from starts [] = []
export_from starts (c ∷ s) =
    if is_letter_or_digit c
    then (if starts then to_upper (c ∷ []) else c ∷ []) ++ export_from false s
    else export_from true s

unfoldable pub export_name : Text → Text
unfolding to_upper
export_name s = export_from true s

abbrev pub operation_parts : List Text → Text
operation_parts [] = []
operation_parts (seg ∷ segs) =
    (if starts_with (codes "{") seg
      then codes "By" ++ export_name (trim is_brace seg)
      else export_name seg)
    ++ operation_parts segs

unfoldable pub operation_id : Text → Text → Text
unfolding split_segs export_name trim starts_with
operation_id method path = method ++ operation_parts (split_segs path)

abbrev pub is_segment_param : Text → Bool
is_segment_param s = starts_with (codes ":") s || is_braced s

-- templateMatches
unfoldable pub template_matches : List Text → List Text → Bool
unfolding beq starts_with
template_matches [] [] = true
template_matches (t ∷ tmpl) (s ∷ segs) =
    (is_braced t || is_segment_param s || beq t s) && template_matches tmpl segs
template_matches _ _ = false
