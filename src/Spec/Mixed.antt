-- ===== src/Spec/Mixed.antt =====
-- internal/spec/infer.go, mergeSchemas: the type of a union.
use optictrace.Prelude.{
  Bool, true, not, ◌&&◌, ◌||◌, [], Text, beq, beq_iff, is_empty, ◌≡◌, refl, arith, ◌∙◌, ap,
}
use optictrace.Spec.{Schema, schema, facts_of}
use optictrace.Spec.Merge.{integer, number, merge_types, merge_into, merge_schemas}

-- Two observed types that have no common one.
unfoldable pub is_mixed : Text → Text → Bool
is_mixed a b =
    not (beq a b)
    && not (is_empty a)
    && not (is_empty b)
    && not ((beq a integer && beq b number) || (beq a number && beq b integer))

merge_types-mixed : (a b : Text) → is_mixed a b ≡ true → merge_types a b ≡ []
unfolding merge_types is_mixed
merge_types-mixed a b h = ground arith

merge_types-empty : (c : Text) → merge_types [] c ≡ c
unfolding merge_types
merge_types-empty c = ground (arith, beq_iff [] c)

module _ {F : Type 0} where
  abbrev pub type_of : Schema F → Text
  type_of sc = (facts_of sc).type

  type-merge_schemas :
      (a b : Schema F) → type_of (merge_schemas a b) ≡ merge_types (type_of a) (type_of b)
  unfolding merge_schemas merge_into
  type-merge_schemas (schema fa pa ia) (schema fb pb ib) = refl

  -- The union of two schemas whose types are neither equal nor empty nor integer and number has no
  -- type, and takes the type of the next schema that it is merged with, whatever was seen before.
  pub type-merge_schemas_mixed :
      (a b c : Schema F)
      → is_mixed (type_of a) (type_of b) ≡ true
      → (type_of (merge_schemas a b) ≡ [])
        × (type_of (merge_schemas (merge_schemas a b) c) ≡ type_of c)
  type-merge_schemas_mixed a b c h =
      let mixed = type-merge_schemas a b ∙ merge_types-mixed (type_of a) (type_of b) h in
      (
        mixed,
        type-merge_schemas (merge_schemas a b) c
            ∙ ap (λ (t : Text). merge_types t (type_of c)) mixed
            ∙ merge_types-empty (type_of c),
      )
