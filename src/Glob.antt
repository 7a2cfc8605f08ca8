-- ===== src/Glob.antt =====
-- internal/engine/engine.go: splitting paths into segments and matching them against globs.
mod Tests
pub mod Segment
pub mod Decides
pub mod Route
use optictrace.Prelude.{
  ℕ, Bool, true, false, ◌&&◌, ◌||◌, List, [], ◌∷◌, Text, codes, beq, split_by, trim, is_empty,
  if◌then◌else◌, ◌==◌,
}
use Segment.{path_match}

abbrev pub slash : ℕ
slash = b'/'

abbrev pub double_star : Text
double_star = codes "**"

-- strings.Trim(s, "/")
unfoldable pub trim_slashes : Text → Text
unfolding trim
trim_slashes s = trim (λ c. c == slash) s

unfoldable pub split_path : Text → List Text
unfolding trim_slashes split_by
split_path s = let t = trim_slashes s in if is_empty t then [] else split_by slash t

-- `for i := 0; i <= len(segs); i++ { if rest(segs[i:]) { return true } }`
abbrev pub any_suffix : (List Text → Bool) → List Text → Bool
any_suffix rest [] = rest []
any_suffix rest (s ∷ segs) = rest (s ∷ segs) || any_suffix rest segs

abbrev pub first_segment : Text → (List Text → Bool) → List Text → Bool
first_segment p rest [] = false
first_segment p rest (s ∷ segs) = path_match p s && rest segs

unfoldable pub match_segments : List Text → List Text → Bool
unfolding path_match beq
match_segments [] segs = is_empty segs
match_segments (p ∷ pattern) segs =
    if beq p double_star
    then (if is_empty pattern then true else any_suffix (match_segments pattern) segs)
    else first_segment p (match_segments pattern) segs
