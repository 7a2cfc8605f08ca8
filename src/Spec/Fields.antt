-- ===== src/Spec/Fields.antt =====
-- internal/spec/model.go: the dotted paths of a schema's fields, and the template that a path falls under.
use optictrace.Prelude.{
  ℕ, zero, suc, Option, none, some, List, [], ◌∷◌, ◌++◌, Text, codes, lookup, is_empty,
  if◌then◌else◌, starts_with, trim_prefix,
}
use optictrace.Spec.{
  Schema, schema, Pointer, nil, to, Props, nil_map, empty_map, prop, Operation, Document, facts_of,
}
use optictrace.Spec.Paths.{split_segs, template_matches}

abbrev pub ref_prefix : Text
ref_prefix = codes "#/components/schemas/"

abbrev pub dotted : Text → Text → Text
dotted prefix name = if is_empty prefix then name else prefix ++ b'.' ∷ name

abbrev pub or_else {ℓ} : {A : Type ℓ} → Option A → Option A → Option A
or_else none later = later
or_else (some a) later = some a

module _ {F : Type 0} where
  abbrev pub named : Option (List (Text × Schema F)) → Text → Option (Schema F)
  named none ref = none
  named (some schemas) ref =
      if starts_with ref_prefix ref then lookup (trim_prefix ref_prefix ref) schemas else none

  abbrev pub or_here : Schema F → Option (Schema F) → Schema F
  or_here sc none = sc
  or_here sc (some next) = next

  -- Resolve, at most `left` references. Once a reference leads nowhere, nothing changes any more.
  unfoldable pub resolve_within : ℕ → Option (List (Text × Schema F)) → Schema F → Schema F
  unfolding lookup starts_with trim_prefix
  resolve_within zero schemas sc = sc
  resolve_within (suc left) schemas sc =
      let next = resolve_within left schemas (or_here sc (named schemas (facts_of sc).ref)) in
      if is_empty (facts_of sc).ref then sc else next

  unfoldable pub resolve : Document F → Schema F → Schema F
  unfolding resolve_within
  resolve s sc = resolve_within 10 s.components sc

  abbrev pub resolve_pointer : Document F → Pointer F → Pointer F
  resolve_pointer s nil = nil
  resolve_pointer s (to sc) = to (resolve s sc)

  abbrev pub entries : Props F → List (Text × Schema F)
  entries nil_map = []
  entries empty_map = []
  entries (prop k sc props) = (k, sc) ∷ entries props

  -- The switch of walkFields on a resolved schema, `walk` being the walk one level down.
  abbrev pub walk_props : (Schema F → Text → List Text) → List (Text × Schema F) → Text → List Text
  walk_props walk [] prefix = []
  walk_props walk ((name, child) ∷ props) prefix =
      dotted prefix name ∷ walk child (dotted prefix name) ++ walk_props walk props prefix

  abbrev pub walk_items : (Schema F → Text → List Text) → Pointer F → Text → List Text
  walk_items walk nil prefix = []
  walk_items walk (to items) prefix = walk items prefix

  abbrev pub walk_node : (Schema F → Text → List Text) → Schema F → Text → List Text
  walk_node walk (schema facts (prop k sc props) items) prefix =
      walk_props walk (entries (prop k sc props)) prefix
  walk_node walk (schema facts nil_map items) prefix = walk_items walk items prefix
  walk_node walk (schema facts empty_map items) prefix = walk_items walk items prefix

  -- walkFields, the depth as its distance to the limit.
  unfoldable pub walk_fields : ℕ → Document F → Schema F → Text → List Text
  unfolding resolve
  walk_fields zero s sc prefix = []
  walk_fields (suc left) s sc prefix =
      walk_node (λ child p. walk_fields left s child p) (resolve s sc) prefix

  -- FieldPaths, as the list of the paths that the set holds.
  unfoldable pub field_paths : Document F → Pointer F → List Text
  unfolding walk_fields
  field_paths s nil = []
  field_paths s (to sc) = walk_fields 13 s sc []

  abbrev pub body_schema : Document F → Option (Pointer F) → Pointer F
  body_schema s none = nil
  body_schema s (some p) = resolve_pointer s p

  unfoldable pub request_schema : Document F → Operation F → Pointer F
  unfolding resolve
  request_schema s op = body_schema s op.request_body

  abbrev pub first_success : List (Text × Option (Pointer F)) → Option (Option (Pointer F))
  first_success [] = none
  first_success ((code, r) ∷ responses) =
      if starts_with (codes "2") code then some r else first_success responses

  abbrev pub response_body_schema : Document F → Option (Option (Pointer F)) → Pointer F
  response_body_schema s none = nil
  response_body_schema s (some r) = body_schema s r

  -- responseSchema: the status, else the first success that the range meets, else the default.
  unfoldable pub response_schema : Document F → Operation F → Text → Pointer F
  unfolding lookup resolve starts_with
  response_schema s op status = response_body_schema s (
      or_else (lookup status op.responses)
        (or_else (first_success op.responses) (lookup (codes "default") op.responses)))

  abbrev pub first_match : List Text → List (Text × List (Text × Operation F)) → Option Text
  first_match segs [] = none
  first_match segs ((tmpl, ops) ∷ paths) =
      if template_matches (split_segs tmpl) segs then some tmpl else first_match segs paths

  abbrev pub exact_or : Text → Option (List (Text × Operation F)) → Option Text → Option Text
  exact_or path none other = other
  exact_or path (some ops) other = some path

  -- MatchPath
  unfoldable pub match_path : Document F → Text → Option Text
  unfolding lookup template_matches split_segs
  match_path s path = exact_or path (lookup path s.paths) (first_match (split_segs path) s.paths)
