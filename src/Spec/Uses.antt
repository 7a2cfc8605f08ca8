-- ===== src/Spec/Uses.antt =====
-- internal/spec/check.go: the dotted paths of the fields in recorded documents.
use optictrace.Prelude.{
  ℕ, zero, suc, ◌+◌, Option, none, some, List, [], Text, lookup, insert, max, if◌then◌else◌,
}
use optictrace.Json.{Value, Items, Fields, null, bool, num, str, arr, obj, cons, end, field}
use optictrace.Json as Json
use optictrace.Spec.Merge.{starts_document}
use optictrace.Spec.Fields.{dotted}

-- fieldUse: how often a field was met, and when last.
pub record FieldUse : Type 0 where
  pub count : ℕ
  pub last_seen : ℕ

abbrev pub use_of : Option FieldUse → FieldUse
use_of none = record { count = 0; last_seen = 0 }
use_of (some u) = u

abbrev pub used_at : ℕ → FieldUse → FieldUse
used_at time u = record { count = u.count + 1; last_seen = max u.last_seen time }

abbrev pub note_use : Text → ℕ → List (Text × FieldUse) → List (Text × FieldUse)
note_use p time into = insert p (used_at time (use_of (lookup p into))) into

module _ {F : Type 0} where
  -- walkJSONFields, the depth as its distance to the limit.
  unfoldable mutual
    unfolding insert lookup

    pub walk_json : ℕ → Value F → Text → ℕ → List (Text × FieldUse) → List (Text × FieldUse)
    walk_json zero v prefix time into = into
    walk_json (suc left) (obj fs) prefix time into = walk_json_fields left fs prefix time into
    walk_json (suc left) (arr vs) prefix time into = walk_json_items left vs prefix time into
    walk_json (suc left) null prefix time into = into
    walk_json (suc left) (bool b) prefix time into = into
    walk_json (suc left) (num n) prefix time into = into
    walk_json (suc left) (str t) prefix time into = into

    pub walk_json_fields : ℕ → Fields F → Text → ℕ → List (Text × FieldUse) → List (Text × FieldUse)
    walk_json_fields left end prefix time into = into
    walk_json_fields left (field k v fs) prefix time into =
        walk_json_fields left fs prefix time
          (walk_json left v (dotted prefix k) time (note_use (dotted prefix k) time into))

    pub walk_json_items : ℕ → Items F → Text → ℕ → List (Text × FieldUse) → List (Text × FieldUse)
    walk_json_items left Json.nil prefix time into = into
    walk_json_items left (cons v vs) prefix time into =
        walk_json_items left vs prefix time (walk_json left v prefix time into)

  abbrev pub walk_decoded : Option (Value F) → ℕ → List (Text × FieldUse) → List (Text × FieldUse)
  walk_decoded none time into = into
  walk_decoded (some v) time into = walk_json 13 v [] time into

  -- collectFieldUse; `decode` is json.Unmarshal.
  unfoldable pub collect_field_use :
      (Text → Option (Value F)) → Text → ℕ → List (Text × FieldUse) → List (Text × FieldUse)
  unfolding walk_json
  collect_field_use decode body time into =
      if starts_document body then walk_decoded (decode body) time into else into
