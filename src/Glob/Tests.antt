-- ===== src/Glob/Tests.antt =====
-- Runs of the globs.
use optictrace.Prelude.{
  split_by, trim, true, false, any, List, [], ◌∷◌, Text, codes, ◌≡◌, ◌↔◌, refl,
}
use optictrace.Glob.{double_star, match_segments}
use optictrace.Glob.Segment.{path_match, is_meta, path_match-literal}
use optictrace.Glob.Route.{normalize_route}
use optictrace.Glob.Decides.{SegMatches, match_segments_iff}

abbrev pattern : List Text
pattern = codes "api" ∷ double_star ∷ codes "v*" ∷ []

abbrev segments : List Text
segments = codes "api" ∷ codes "users" ∷ codes "7" ∷ codes "v2" ∷ []

matches : match_segments pattern segments ≡ true
unfolding match_segments
matches = refl

match_segments_iff_example : (match_segments pattern segments ≡ true) ↔ SegMatches pattern segments
match_segments_iff_example = match_segments_iff pattern segments

no_meta : any is_meta (codes "users") ≡ false
unfolding is_meta
no_meta = refl

path_match-literal_example :
    (path_match (codes "users") (codes "user") ≡ true) ↔ (codes "users" ≡ codes "user")
path_match-literal_example = path_match-literal (codes "users") (codes "user") no_meta

abbrev some_path : Text
some_path = codes "//users/42//deadbeefdeadbeef/"

some_route : normalize_route some_path ≡ codes "/users/:id//:id"
unfolding normalize_route split_by trim
some_route = refl
