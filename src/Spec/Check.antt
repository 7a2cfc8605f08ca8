-- ===== src/Spec/Check.antt =====
-- internal/spec/check.go: a specification against recorded traffic. The messages, which print the
-- other fields of a finding and its age, are not modelled.
use optictrace.Prelude.{
  ℕ, ◌+◌, Bool, true, false, not, ◌&&◌, ◌||◌, Option, none, some, List, [], ◌∷◌, ◌++◌, Text, codes,
  beq, contains, lookup, insert, map, any, is_empty, leb, ltb, max, ◌==◌, if◌then◌else◌,
  starts_with, to_lower, to_upper, sort_texts,
}
use optictrace.Json.{Value}
use optictrace.Config.{cut}
use optictrace.Spec.{Pointer, Operation, Document}
use optictrace.Spec.Paths.{open_api_path, split_segs, template_matches}
use optictrace.Spec.Infer.{Record, fst}
use optictrace.Spec.Fields.{field_paths, request_schema, response_schema, match_path}
use optictrace.Spec.Uses.{FieldUse, use_of, collect_field_use}

pub data Severity : Type 0 where
  breaking warn info : Severity

pub data Kind : Type 0 where
  endpoint_missing request_field_missing response_field_undocumented endpoint_unused : Kind

pub record Finding : Type 0 where
  pub severity : Severity
  pub kind : Kind
  pub method : Text
  pub path : Text
  pub field : Text
  pub count : ℕ
  pub last_seen : ℕ

pub record Usage : Type 0 where
  pub count : ℕ
  pub last_seen : ℕ
  pub request_fields : List (Text × FieldUse)
  pub response_fields : List (Text × FieldUse)

abbrev pub no_usage : Usage
no_usage = record { count = 0; last_seen = 0; request_fields = []; response_fields = [] }

abbrev pub usage_of : Option Usage → Usage
usage_of none = no_usage
usage_of (some u) = u

abbrev pub space : ℕ
space = b' '

unfoldable pub usage_key : Record → Text
unfolding open_api_path
usage_key rec = rec.method ++ space ∷ open_api_path rec.path

-- lastCut: what stands before the last dot.
unfoldable pub parent_of : Text → Option Text
parent_of [] = none
parent_of (c ∷ s) = elim (parent_of s) [
  | some p ↦ some (c ∷ p)
  | none ↦ if c == b'.' then some [] else none
]

abbrev pub is_used : Option FieldUse → Bool
is_used none = false
is_used (some u) = true

-- The field's parent is missing itself, and was used: the parent is reported in its place.
abbrev pub has_missing_parent : List (Text × FieldUse) → List Text → Option Text → Bool
has_missing_parent used spec_fields none = false
has_missing_parent used spec_fields (some parent) =
    not (contains spec_fields parent) && is_used (lookup parent used)

abbrev pub field_finding : Severity → Kind → Text → Text → Text → FieldUse → Finding
field_finding severity kind method path f u = record {
  severity = severity;
  kind = kind;
  method = method;
  path = path;
  field = f;
  count = u.count;
  last_seen = u.last_seen;
}

abbrev pub findings_for :
    List (Text × FieldUse) → List Text → (Text → FieldUse → Finding) → List Text → List Finding
findings_for used spec_fields finding [] = []
findings_for used spec_fields finding (f ∷ fields) =
    let rest = findings_for used spec_fields finding fields in
    if contains spec_fields f || has_missing_parent used spec_fields (parent_of f)
    then rest
    else finding f (use_of (lookup f used)) ∷ rest

unfoldable pub field_findings :
    List (Text × FieldUse) → List Text → Severity → Kind → Text → Text → List Finding
unfolding contains lookup parent_of sort_texts
field_findings used spec_fields severity kind method path =
    findings_for used spec_fields (field_finding severity kind method path)
      (sort_texts (map fst used))

abbrev pub rank : Severity → ℕ
rank breaking = 0
rank warn = 1
rank info = 2

abbrev pub insert_finding : Finding → List Finding → List Finding
insert_finding f [] = f ∷ []
insert_finding f (g ∷ fs) =
    if leb (rank f.severity) (rank g.severity) then f ∷ g ∷ fs else g ∷ insert_finding f fs

-- sort.SliceStable by rank.
unfoldable pub sort_findings : List Finding → List Finding
sort_findings [] = []
sort_findings (f ∷ fs) = insert_finding f (sort_findings fs)

abbrev pub is_breaking : Finding → Bool
is_breaking f = rank f.severity == 0

-- HasBreaking
unfoldable pub has_breaking : List Finding → Bool
has_breaking fs = any is_breaking fs

abbrev pub is_success : ℕ → Bool
is_success status = leb 200 status && ltb status 300

abbrev pub undocumented : Text → Text → Usage → List Text → List Finding
undocumented method tmpl u spec_resp =
    if is_empty spec_resp
    then []
    else field_findings u.response_fields spec_resp warn response_field_undocumented method tmpl

abbrev pub path_after : Option Text → Text
path_after none = []
path_after (some path) = path

abbrev pub covers : Text → Text → Text × Usage → Bool
covers upper tmpl (key, u) =
    let (m, p) = cut space key in
    beq m upper && template_matches (split_segs tmpl) (split_segs (path_after p))

module _ {F : Type 0} where
  abbrev pub used_by : (Text → Option (Value F)) → Record → Usage → Usage
  used_by decode rec u = record {
    count = u.count + 1;
    last_seen = max u.last_seen rec.time;
    request_fields = collect_field_use decode rec.request_body rec.time u.request_fields;
    response_fields =
        if is_success rec.status
        then collect_field_use decode rec.response_body rec.time u.response_fields
        else u.response_fields;
  }

  unfoldable pub observe :
      (Text → Option (Value F)) → List Record → List (Text × Usage) → List (Text × Usage)
  observe decode [] observed = observed
  observe decode (rec ∷ recs) observed = observe decode recs (
      insert (usage_key rec) (used_by decode rec (usage_of (lookup (usage_key rec) observed)))
        observed)

  abbrev pub operation_in : Option (List (Text × Operation F)) → Text → Option (Operation F)
  operation_in none method = none
  operation_in (some ops) method = lookup method ops

  abbrev pub with_template : Text → Option (Operation F) → Option (Text × Operation F)
  with_template tmpl none = none
  with_template tmpl (some op) = some (tmpl, op)

  -- The operation, with its template, of the method and path of a key.
  abbrev pub find_operation : Document F → Text → Option Text → Option (Text × Operation F)
  find_operation s method none = none
  find_operation s method (some tmpl) =
      with_template tmpl (operation_in (lookup tmpl s.paths) (to_lower method))

  abbrev pub response_fields_of :
      Document F → Operation F → List (Text × Option (Pointer F)) → List Text
  response_fields_of s op [] = []
  response_fields_of s op ((status, r) ∷ responses) =
      let rest = response_fields_of s op responses in
      if starts_with (codes "2") status || beq status (codes "default")
      then field_paths s (response_schema s op status) ++ rest
      else rest

  abbrev pub findings_at :
      Document F → Text → Text → Usage → Option (Text × Operation F) → List Finding
  findings_at s method path u none =
      record {
        severity = breaking;
        kind = endpoint_missing;
        method = method;
        path = path;
        field = [];
        count = u.count;
        last_seen = u.last_seen;
      }
      ∷ []
  findings_at s method path u (some (tmpl, op)) =
      field_findings u.request_fields (field_paths s (request_schema s op)) breaking
        request_field_missing method tmpl
      ++ undocumented method tmpl u (response_fields_of s op op.responses)

  unfoldable pub check_key : Document F → List (Text × Usage) → Text → List Finding
  unfolding cut
  check_key s observed key =
      let (method, rest) = cut space key in
      let path = path_after rest in
      findings_at s method path (usage_of (lookup key observed))
        (find_operation s method (match_path s path))

  abbrev pub check_keys : Document F → List (Text × Usage) → List Text → List Finding
  check_keys s observed [] = []
  check_keys s observed (key ∷ keys) = check_key s observed key ++ check_keys s observed keys

  abbrev pub unused_at : List (Text × Usage) → Text → List (Text × Operation F) → List Finding
  unused_at observed tmpl [] = []
  unused_at observed tmpl ((method, op) ∷ methods) =
      let rest = unused_at observed tmpl methods in
      if any (covers (to_upper method) tmpl) observed
      then rest
      else record {
        severity = info;
        kind = endpoint_unused;
        method = to_upper method;
        path = tmpl;
        field = [];
        count = 0;
        last_seen = 0;
      }
        ∷ rest

  abbrev pub operations_of : Option (List (Text × Operation F)) → List (Text × Operation F)
  operations_of none = []
  operations_of (some methods) = methods

  abbrev pub check_unused : Document F → List (Text × Usage) → List Text → List Finding
  check_unused s observed [] = []
  check_unused s observed (tmpl ∷ paths) =
      unused_at observed tmpl (operations_of (lookup tmpl s.paths)) ++ check_unused s observed paths

  -- Check
  unfoldable pub check : (Text → Option (Value F)) → Document F → List Record → List Finding
  unfolding cut
  check decode s recs =
      let observed = observe decode recs [] in
      sort_findings (
        check_keys s observed (sort_texts (map fst observed))
        ++ check_unused s observed (sort_texts (map fst s.paths)))
