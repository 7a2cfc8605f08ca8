-- ===== src/Spec/Merge.antt =====
-- internal/spec/infer.go: the schema of a value, and the union of two schemas.
use optictrace.Prelude.{
  ℕ, zero, suc, Bool, true, false, not, ◌&&◌, ◌||◌, Option, none, some, List, [], ◌∷◌, Text, codes,
  beq, contains, sort_texts, is_empty, ◌==◌, if◌then◌else◌,
}
use optictrace.Floats.{Floats}
use optictrace.Json.{Value, Items, Fields, null, bool, num, str, arr, obj, cons, end, field}
use optictrace.Json as Json
use optictrace.Redact.{placeholder}
use optictrace.Spec.{
  Example, no_example, text_example, integer_example, number_example, Facts, Schema, schema,
  Pointer, nil, to, Props, nil_map, empty_map, prop, get_prop, put_prop, is_nil_map,
}

abbrev pub integer : Text
integer = codes "integer"

abbrev pub number : Text
number = codes "number"

-- The type of a union of shapes.
unfoldable pub merge_types : Text → Text → Text
merge_types a b =
    if beq a b
    then a
    else if is_empty a
    then b
    else if is_empty b
    then a
    else if (beq a integer && beq b number) || (beq a number && beq b integer)
    then number
    else []

-- `for _, k := range b.Required { if req[k] { … } }`
unfoldable pub keep_common : List Text → List Text → List Text
keep_common req [] = []
keep_common req (k ∷ ks) =
    let rest = keep_common req ks in if contains req k then k ∷ rest else rest

-- `body == "" || (body[0] != '{' && body[0] != '[')`, negated.
abbrev pub starts_document : Text → Bool
starts_document [] = false
starts_document (c ∷ s) = c == b'{' || c == b'['

module _ {F : Type 0} where
  abbrev pub first_example : Example F → Example F → Example F
  first_example no_example b = b
  first_example a b = a

  -- `required` is written only where one of the two has properties.
  abbrev pub merge_facts : Bool → Facts F → Facts F → Facts F
  merge_facts has_props a b = record {
    ref = [];
    type = merge_types a.type b.type;
    required = if has_props then sort_texts (keep_common a.required b.required) else [];
    nullable = a.nullable || b.nullable;
    example = first_example a.example b.example;
  }

  abbrev pub non_nil : Props F → Props F → Props F
  non_nil nil_map nil_map = nil_map
  non_nil nil_map _ = empty_map
  non_nil props _ = props

  -- mergeSchemas on two pointers.
  unfoldable mutual
    unfolding get_prop put_prop merge_types keep_common

    pub merge_into : Pointer F → Schema F → Schema F
    merge_into nil (schema fb pb ib) = schema fb pb ib
    merge_into (to (schema fa pa ia)) (schema fb pb ib) =
        schema (merge_facts (not (is_nil_map pa && is_nil_map pb)) fa fb)
          (merge_props (non_nil pa pb) pb) (merge_pointers ia ib)

    pub merge_pointers : Pointer F → Pointer F → Pointer F
    merge_pointers a nil = a
    merge_pointers a (to b) = to (merge_into a b)

    pub merge_props : Props F → Props F → Props F
    merge_props out nil_map = out
    merge_props out empty_map = out
    merge_props out (prop k v props) =
        merge_props (put_prop k (merge_into (get_prop k out) v) out) props

  unfoldable pub merge_schemas : Schema F → Schema F → Schema F
  unfolding merge_into
  merge_schemas a b = merge_into (to a) b

  abbrev pub plain : Text → Facts F
  plain type = record {
    ref = [];
    type = type;
    required = [];
    nullable = false;
    example = no_example;
  }

  abbrev pub scalar : Facts F → Schema F
  scalar facts = schema facts nil_map nil

  abbrev pub untyped : Schema F
  untyped = scalar (plain [])

  abbrev pub text_facts : Text → Facts F
  text_facts t =
      if is_empty t || beq t placeholder
      then plain (codes "string")
      else record (plain (codes "string")) { example = text_example t }

  abbrev pub items_or_any : Pointer F → Pointer F
  items_or_any nil = to untyped
  items_or_any (to sc) = to sc

  abbrev pub keys_of : Fields F → List Text
  keys_of end = []
  keys_of (field k v fs) = k ∷ keys_of fs

  module _ (ops : Floats F) where
    abbrev pub number_facts : F → Facts F
    number_facts n =
        if ops.is_whole n && ops.is_below_1e15 n
        then record (plain integer) { example = integer_example n }
        else record (plain number) { example = number_example n }

    -- schemaOfValue, the depth as its distance to the limit: `zero` is beyond it.
    unfoldable mutual
      unfolding merge_pointers merge_into put_prop sort_texts

      pub schema_within : ℕ → Value F → Schema F
      schema_within zero v = untyped
      schema_within (suc left) (obj fs) =
          schema (record (plain (codes "object")) { required = sort_texts (keys_of fs) })
            (props_within left fs) nil
      schema_within (suc left) (arr vs) =
          schema (plain (codes "array")) nil_map (items_or_any (items_within left nil vs))
      schema_within (suc left) (str t) = scalar (text_facts t)
      schema_within (suc left) (num n) = scalar (number_facts n)
      schema_within (suc left) (bool b) = scalar (plain (codes "boolean"))
      schema_within (suc left) null = scalar (record (plain []) { nullable = true })

      pub items_within : ℕ → Pointer F → Items F → Pointer F
      items_within left acc Json.nil = acc
      items_within left acc (cons v vs) =
          items_within left (merge_pointers acc (to (schema_within left v))) vs

      pub props_within : ℕ → Fields F → Props F
      props_within left end = empty_map
      props_within left (field k v fs) = put_prop k (schema_within left v) (props_within left fs)

    -- schemaOfValue(v, 0): the limit is a depth of 12.
    unfoldable pub schema_of_value : Value F → Schema F
    unfolding schema_within
    schema_of_value v = schema_within 13 v

    abbrev pub decoded : Option (Value F) → Pointer F
    decoded none = nil
    decoded (some v) = to (schema_of_value v)

    -- schemaOfJSON; `decode` is json.Unmarshal.
    unfoldable pub schema_of_json : (Text → Option (Value F)) → Text → Pointer F
    schema_of_json decode body = if starts_document body then decoded (decode body) else nil
