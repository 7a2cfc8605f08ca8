-- ===== src/Spec/Tests.antt =====
-- Runs of the inference and of the check.
use optictrace.Prelude.{
  ℕ, true, Option, none, some, List, [], ◌∷◌, Text, codes, ◌≡◌, refl, beq, any, every,
  if◌then◌else◌, to_lower, sort_texts, insert, itoa, contains, join_by, lookup, split_by,
  starts_with, text_le, to_upper, trim, trim_left, trim_prefix, trim_right,
}
use optictrace.Spec.Uses.{collect_field_use, walk_json}
use optictrace.Config.{cut}
use optictrace.Glob.Route.{is_identifier, is_long_hex, is_number, is_uuid, normalize_route}
use optictrace.Glob.{split_path, trim_slashes}
use optictrace.Samples.{whole_numbers}
use optictrace.Json.{Value, null, num, str, arr, obj, end, field, cons}
use optictrace.Json as Json
use optictrace.Spec.{Document, Schema, get_prop, put_prop}
use optictrace.Spec.Merge.{
  merge_schemas, plain, scalar, schema_of_value, keep_common, merge_pointers, merge_types,
  schema_of_json, schema_within,
}
use optictrace.Spec.Paths.{
  open_api_path, path_params, operation_id, export_name, name_params, param_name_for, split_segs,
  template_matches,
}
use optictrace.Spec.Infer.{
  Record, Decoders, infer, add_all, finish, all_paths, add, operation_of, add_to, count_keys,
}
use optictrace.Spec.Fields.{
  match_path, field_paths, request_schema, resolve, resolve_within, response_schema, walk_fields,
}
use optictrace.Spec.Check.{
  check, has_breaking, usage_key, parent_of, sort_findings, observe, check_key, field_findings,
}
use optictrace.Spec.Grouped.{tally_at, tally_all, records_for, tally_at-add_all}
use optictrace.Spec.Described.{Describes, merge_all, has_key, is_null, merge_all-Describes}
use optictrace.Spec.Mixed.{is_mixed, type_of, type-merge_schemas_mixed}
use optictrace.Spec.Known.{is_known}
use optictrace.Spec.Covered.{check-infer}
use optictrace.Spec.Missing.{has_breaking-check}

users : open_api_path (codes "/users/42/orders/7") ≡ codes "/users/{userId}/orders/{orderId}"
unfolding open_api_path
users = refl

users-params : path_params (codes "/users/{userId}/x") ≡ codes "userId" ∷ []
unfolding path_params
users-params = refl

users-operation : operation_id (codes "get") (codes "/users/{userId}") ≡ codes "getUsersByUserId"
unfolding operation_id
users-operation = refl

parent : parent_of (codes "a.b.c") ≡ some (codes "a.b")
unfolding parent_of
parent = refl

abbrev a : Text
a = 97 ∷ []

abbrev with_object : Value ℕ
with_object = obj (field a (obj (field (codes "x") (num 1) end)) end)

abbrev with_array : Value ℕ
with_array = obj (field a (arr (cons (obj (field (codes "y") (num 1) end)) Json.nil)) end)

abbrev decode : Text → Option (Value ℕ)
decode t = if beq t (codes "{}") then some with_object else some with_array

abbrev decoders : Decoders ℕ
decoders = record { decode = decode; query_keys = λ t. none }

abbrev post : Text → Record
post body = record {
  method = codes "POST";
  path = codes "/a";
  query = [];
  request_body = body;
  response_body = [];
  status = 200;
  time = 5;
}

abbrev traffic : List Record
traffic = post (codes "{}") ∷ post (codes "{1}") ∷ []

-- A field that is an object in one request and an array of objects in another.
object_or_array :
    has_breaking (check decode (infer whole_numbers decoders [] traffic) traffic) ≡ true
unfolding infer check has_breaking sort_findings sort_texts observe insert usage_key check_key
    match_path finish all_paths add_all add to_lower field_findings collect_field_use field_paths
    request_schema operation_of cut is_identifier is_long_hex is_number is_uuid normalize_route
    split_path trim_slashes itoa beq contains join_by lookup split_by starts_with text_le to_upper
    trim trim_left trim_prefix trim_right parent_of resolve resolve_within response_schema
    walk_fields add_to count_keys keep_common merge_pointers merge_types schema_of_json
    schema_of_value schema_within export_name name_params open_api_path operation_id param_name_for
    path_params split_segs template_matches walk_json get_prop put_prop
object_or_array = refl

tally_at-add_all_example :
    tally_at (add_all whole_numbers decoders [] traffic) (codes "/a") (codes "post")
    ≡ tally_all whole_numbers decoders none (records_for (codes "/a") (codes "post") traffic)
tally_at-add_all_example =
    tally_at-add_all whole_numbers decoders traffic (codes "/a") (codes "post")

merge_all-Describes_example :
    Describes
      (merge_all whole_numbers (schema_of_value whole_numbers with_object) (null ∷ []))
      (λ k. every (has_key k) (with_object ∷ null ∷ []))
      (λ k. any (has_key k) (with_object ∷ null ∷ []))
      (any is_null (with_object ∷ null ∷ []))
merge_all-Describes_example = merge_all-Describes whole_numbers with_object (null ∷ [])

abbrev typed : Text → Schema ℕ
typed t = scalar (plain t)

type-merge_schemas_mixed_example :
    (type_of (merge_schemas (typed (1 ∷ [])) (typed (2 ∷ []))) ≡ [])
    × (type_of (merge_schemas (merge_schemas (typed (1 ∷ [])) (typed (2 ∷ []))) (typed (3 ∷ [])))
        ≡ 3 ∷ [])
unfolding is_mixed beq
type-merge_schemas_mixed_example =
    type-merge_schemas_mixed (typed (1 ∷ [])) (typed (2 ∷ [])) (typed (3 ∷ [])) refl

check-infer_example :
    every is_known (check decode (infer whole_numbers decoders [] traffic) traffic) ≡ true
check-infer_example = check-infer whole_numbers decoders [] traffic (refl, (refl, tt))

abbrev nothing : Document ℕ
nothing = record { title = []; paths = []; components = none }

has_breaking-check_example : has_breaking (check decode nothing traffic) ≡ true
unfolding usage_key match_path
has_breaking-check_example =
    has_breaking-check decode nothing traffic (post (codes "{}")) refl refl refl
