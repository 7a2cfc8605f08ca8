-- ===== src/Spec/Infer.antt =====
-- internal/spec/infer.go: an OpenAPI document learnt from recorded traffic.
use optictrace.Prelude.{
  ℕ, ◌+◌, true, Option, none, some, List, [], ◌∷◌, ◌++◌, Text, codes, lookup, insert, map, is_empty,
  ◌==◌, if◌then◌else◌, to_lower, sort_texts, itoa,
}
use optictrace.Floats.{Floats}
use optictrace.Json.{Value}
use optictrace.Spec.{Pointer, nil, to, Param, Operation, Document}
use optictrace.Spec.Merge.{merge_pointers, schema_of_json}
use optictrace.Spec.Paths.{open_api_path, path_params, operation_id}

-- What the package reads of a store.Record; the time is its distance from the zero time.
pub record Record : Type 0 where
  pub method : Text
  pub path : Text
  pub query : Text
  pub request_body : Text
  pub response_body : Text
  pub status : ℕ
  pub time : ℕ

-- opAgg
pub record Tally (F : Type 0) : Type 0 where
  pub count : ℕ
  pub request : Pointer F
  pub responses : List (Text × Pointer F)
  pub query_params : List (Text × ℕ)

-- The `ops` of an Inferrer, by path and method.
abbrev pub Ops : Type 0 → Type 0
Ops F = List (Text × List (Text × Tally F))

abbrev pub count_of : Option ℕ → ℕ
count_of none = 0
count_of (some n) = n

unfoldable pub count_keys : List Text → List (Text × ℕ) → List (Text × ℕ)
unfolding lookup insert
count_keys [] counts = counts
count_keys (k ∷ ks) counts = count_keys ks (insert k (count_of (lookup k counts) + 1) counts)

abbrev pub keys_seen : Option (List Text) → List Text
keys_seen none = []
keys_seen (some ks) = ks

-- json.Unmarshal, and the distinct keys that url.ParseQuery finds, where it succeeds.
pub record Decoders (F : Type 0) : Type 0 where
  pub decode : Text → Option (Value F)
  pub query_keys : Text → Option (List Text)

abbrev pub path_param : Text → Param
path_param p = record { name = p; place = codes "path"; required = true; type = codes "string" }

abbrev pub fst {ℓ} : {V : Type ℓ} → Text × V → Text
fst e = e.0

module _ {F : Type 0} where
  abbrev pub no_tally : Tally F
  no_tally = record { count = 0; request = nil; responses = []; query_params = [] }

  abbrev pub tally_of : Option (Tally F) → Tally F
  tally_of none = no_tally
  tally_of (some t) = t

  abbrev pub pointer_of : Option (Pointer F) → Pointer F
  pointer_of none = nil
  pointer_of (some p) = p

  -- A status whose body is not known is entered without a schema, if it is new.
  abbrev pub note_status :
      Text → Option (Pointer F) → List (Text × Pointer F) → List (Text × Pointer F)
  note_status status (some p) responses = responses
  note_status status none responses = insert status nil responses

  abbrev pub note_response : ℕ → Pointer F → List (Text × Pointer F) → List (Text × Pointer F)
  note_response status (to sc) responses =
      insert (itoa status) (merge_pointers (pointer_of (lookup (itoa status) responses)) (to sc))
        responses
  note_response status nil responses =
      if status == 0
      then responses
      else note_status (itoa status) (lookup (itoa status) responses) responses

  abbrev pub methods_of : Option (List (Text × Tally F)) → List (Text × Tally F)
  methods_of none = []
  methods_of (some methods) = methods

  module _ (ops : Floats F) (d : Decoders F) where
    unfoldable pub add_to : Tally F → Record → Tally F
    unfolding count_keys lookup insert itoa merge_pointers schema_of_json
    add_to t rec = record {
      count = t.count + 1;
      request = merge_pointers t.request (schema_of_json ops d.decode rec.request_body);
      responses =
          note_response rec.status (schema_of_json ops d.decode rec.response_body) t.responses;
      query_params =
          if is_empty rec.query
          then t.query_params
          else count_keys (keys_seen (d.query_keys rec.query)) t.query_params;
    }

    -- Add
    unfoldable pub add : Ops F → Record → Ops F
    add all rec =
        let path = open_api_path rec.path in
        let method = to_lower rec.method in
        let methods = methods_of (lookup path all) in
        insert path (insert method (add_to (tally_of (lookup method methods)) rec) methods) all

    unfoldable pub add_all : Ops F → List Record → Ops F
    add_all all [] = all
    add_all all (rec ∷ recs) = add_all (add all rec) recs

  abbrev pub query_param : Tally F → Text → Param
  query_param t name = record {
    name = name;
    place = codes "query";
    required = count_of (lookup name t.query_params) == t.count;
    type = codes "string";
  }

  abbrev pub content_of : Pointer F → Option (Pointer F)
  content_of nil = none
  content_of (to sc) = some (to sc)

  abbrev pub or_default : List (Text × Option (Pointer F)) → List (Text × Option (Pointer F))
  or_default [] = (codes "default", none) ∷ []
  or_default responses = responses

  abbrev pub response_for : List (Text × Pointer F) → Text → Text × Option (Pointer F)
  response_for responses status = (status, content_of (pointer_of (lookup status responses)))

  unfoldable pub operation_of : Text → Text → Tally F → Operation F
  unfolding operation_id path_params sort_texts lookup itoa
  operation_of path method t = record {
    summary = codes "Observed " ++ itoa t.count ++ codes " time(s)";
    operation_id = operation_id method path;
    parameters =
        map path_param (path_params path)
        ++ map (query_param t) (sort_texts (map fst t.query_params));
    request_body = content_of t.request;
    responses = or_default (map (response_for t.responses) (sort_texts (map fst t.responses)));
  }

  abbrev pub operations_at : Text → List (Text × Tally F) → List (Text × Operation F)
  operations_at path [] = []
  operations_at path ((method, t) ∷ methods) =
      (method, operation_of path method t) ∷ operations_at path methods

  unfoldable pub all_paths : Ops F → List (Text × List (Text × Operation F))
  all_paths [] = []
  all_paths ((path, methods) ∷ all) = (path, operations_at path methods) ∷ all_paths all

  -- Spec
  unfoldable pub finish : Text → Ops F → Document F
  finish service all = record {
    title = if is_empty service then codes "API" else service;
    paths = all_paths all;
    components = none;
  }

  -- Infer
  unfoldable pub infer : Floats F → Decoders F → Text → List Record → Document F
  infer ops d service recs = finish service (add_all ops d [] recs)
