-- ===== src/Glob/Route/Stable.antt =====
-- internal/engine/engine.go, NormalizeRoute: a route that is normalised already.
use optictrace.Prelude.{
  true, false, not, List, [], ◌∷◌, Text, every, is_empty, map, if◌then◌else◌, if_cases, split_by,
  join_by, trim, ◌≡◌, ◌⊎◌, refl, ap, ◌∙◌, sym, arith, Bool-cases, inl, inr,
}
use optictrace.Glob.{slash, trim_slashes, split_path}
use optictrace.Glob.Route.{is_identifier, id_segment, normalize_segment, normalize_route}
use optictrace.Glob.Route.Ends.{
  cuts, is_free, begins, ends, first_full, last_full, split_by-join_by, split_by_free,
  first_full-split_by, last_full-split_by, begins-join_by, ends-join_by, trim-ends, trim_same,
}

id_segment_kept : is_identifier id_segment ≡ false
unfolding is_identifier
id_segment_kept = refl

empty_kept : is_identifier [] ≡ false
unfolding is_identifier
empty_kept = refl

normalize_segment_idem : (s : Text) → normalize_segment (normalize_segment s) ≡ normalize_segment s
normalize_segment_idem s =
    if_cases (λ r. normalize_segment r ≡ r) (is_identifier s) _ _ (λ e. rw id_segment_kept)
      (λ e. rw e)

map_idem :
    (segs : List Text)
    → map normalize_segment (map normalize_segment segs) ≡ map normalize_segment segs
map_idem [] = refl
map_idem (s ∷ segs) = rw (normalize_segment_idem s, map_idem segs)

free_segment : (s : Text) → is_free slash s ≡ true → is_free slash (normalize_segment s) ≡ true
free_segment s h = if_cases (λ r. is_free slash r ≡ true) (is_identifier s) _ _ (λ e. refl) (λ e. h)

full_segment : (s : Text) → is_empty (normalize_segment s) ≡ is_empty s
full_segment [] = rw empty_kept
full_segment (c ∷ s) =
    if_cases (λ r. is_empty r ≡ false) (is_identifier (c ∷ s)) _ _ (λ e. refl) (λ e. refl)

free_segments :
    (segs : List Text)
    → every (is_free slash) segs ≡ true
    → every (is_free slash) (map normalize_segment segs) ≡ true
free_segments [] h = refl
free_segments (s ∷ segs) h =
    let here = free_segment s (ground arith) in
    let later = free_segments segs (ground arith) in ground arith

first_segments :
    (segs : List Text) → first_full slash (map normalize_segment segs) ≡ first_full slash segs
first_segments [] = refl
first_segments (s ∷ segs) = ap not (full_segment s)

last_segments :
    (segs : List Text) → last_full slash (map normalize_segment segs) ≡ last_full slash segs
last_segments [] = refl
last_segments (s ∷ []) = ap not (full_segment s)
last_segments (s ∷ t ∷ segs) = last_segments (t ∷ segs)

split_when : Text → List Text
split_when t = if is_empty t then [] else split_by slash t

split_path_lem : (s t : Text) → trim (cuts slash) s ≡ t → split_path s ≡ split_when t
unfolding split_path trim_slashes split_when
split_path_lem s t h = ap split_when h

begins-some : (t : Text) → begins slash t ≡ true → is_empty t ≡ false
begins-some [] h = absurd (ground arith)
begins-some (c ∷ t) h = refl

split_path-join_by :
    (segs : List Text)
    → every (is_free slash) segs ≡ true
    → first_full slash segs ≡ true
    → last_full slash segs ≡ true
    → split_path (slash ∷ join_by slash segs) ≡ segs
unfolding split_when
split_path-join_by [] f b e = absurd (ground arith)
split_path-join_by (s ∷ segs) f b e =
    let begun = begins-join_by slash (s ∷ segs) f b in
    let some_join = begins-some (join_by slash (s ∷ segs)) begun in
    split_path_lem _ _
      (trim_same slash (join_by slash (s ∷ segs)) begun (ends-join_by slash (s ∷ segs) f e))
    ∙ ap (λ b. if b then [] else split_by slash (join_by slash (s ∷ segs))) some_join
    ∙ split_by-join_by slash s segs f

-- The route of segments that are normalised already.
route_of_segments : (segs : List Text) → Text
route_of_segments segs = slash ∷ join_by slash (map normalize_segment segs)

route_idem :
    (t : Text)
    → (is_empty t ≡ true) ⊎ ((begins slash t ≡ true) × (ends slash t ≡ true))
    → normalize_route (route_of_segments (split_when t)) ≡ route_of_segments (split_when t)
unfolding normalize_route split_when route_of_segments join_by split_path trim_slashes trim
route_idem [] h = refl
route_idem (c ∷ t) (inl e) = absurd (ground arith)
route_idem (c ∷ t) (inr (b, e)) =
    let segs = split_by slash (c ∷ t) in
    let free = free_segments segs (split_by_free slash (c ∷ t)) in
    let first = first_segments segs ∙ first_full-split_by slash (c ∷ t) b in
    let last = last_segments segs ∙ last_full-split_by slash (c ∷ t) e in
    ap route_of_segments (split_path-join_by (map normalize_segment segs) free first last)
    ∙ ap (λ l. slash ∷ join_by slash l) (map_idem segs)

normalize_route_lem :
    (url_path : Text)
    → normalize_route url_path ≡ route_of_segments (split_when (trim (cuts slash) url_path))
unfolding normalize_route route_of_segments
normalize_route_lem url_path = ap route_of_segments (split_path_lem url_path _ refl)

-- Normalising a route a second time changes nothing.
pub normalize_route_idem :
    (url_path : Text) → normalize_route (normalize_route url_path) ≡ normalize_route url_path
normalize_route_idem url_path =
    ap normalize_route (normalize_route_lem url_path)
    ∙ route_idem (trim (cuts slash) url_path) (trimmed _ (trim-ends slash url_path))
    ∙ sym (normalize_route_lem url_path)
  where
    trimmed :
        (t : Text)
        → (is_empty t ≡ false → (begins slash t ≡ true) × (ends slash t ≡ true))
        → (is_empty t ≡ true) ⊎ ((begins slash t ≡ true) × (ends slash t ≡ true))
    trimmed t h = elim (Bool-cases (is_empty t)) [ inl e ↦ inl e | inr e ↦ inr (h e) ]
