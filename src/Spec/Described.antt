-- ===== src/Spec/Described.antt =====
-- internal/spec/infer.go: the fields of the union of the shapes of several values.
use optictrace.Prelude.{
  ℕ, Bool, true, false, not, ◌&&◌, ◌||◌, List, [], ◌∷◌, Text, beq, beq_iff, contains,
  contains-sort_texts, sort_texts, any, every, if◌then◌else◌, ◌≡◌, refl, ◌∙◌, ap, arith,
}
use optictrace.Floats.{Floats}
use optictrace.Json.{Value, Fields, null, bool, num, str, arr, obj, end, field}
use optictrace.Spec.{
  Schema, schema, Pointer, nil, to, Props, nil_map, empty_map, prop, get_prop, put_prop, is_nil_map,
  facts_of, props_of,
}
use optictrace.Spec.Merge.{
  keep_common, merge_into, merge_props, merge_schemas, non_nil, keys_of, schema_within,
  props_within, schema_of_value,
}

contains-keep_common :
    (req ks : List Text) (k : Text)
    → contains (keep_common req ks) k ≡ (contains req k && contains ks k)
unfolding keep_common contains
contains-keep_common req [] k = ground arith
contains-keep_common req (j ∷ ks) k = ground (arith, beq_iff k j, contains-keep_common req ks k)

module _ {F : Type 0} where
  abbrev pub is_to : Pointer F → Bool
  is_to nil = false
  is_to (to sc) = true

  unfoldable pub has_prop : Text → Props F → Bool
  unfolding get_prop
  has_prop k props = is_to (get_prop k props)

  abbrev pub has_key : Text → Value F → Bool
  has_key k (obj fs) = contains (keys_of fs) k
  has_key k v = false

  abbrev pub is_null : Value F → Bool
  is_null null = true
  is_null v = false

  has_prop-put_prop :
      (k j : Text) (sc : Schema F) (props : Props F)
      → has_prop k (put_prop j sc props) ≡ (beq k j || has_prop k props)
  unfolding has_prop put_prop
  has_prop-put_prop k j sc nil_map = ground (arith, beq_iff j k, beq_iff k j)
  has_prop-put_prop k j sc empty_map = ground (arith, beq_iff j k, beq_iff k j)
  has_prop-put_prop k j sc (prop i old props) =
      ground
        (arith, beq_iff j k, beq_iff k j, beq_iff i k, beq_iff i j, has_prop-put_prop k j sc props)

  has_prop-merge_props :
      (k : Text) (out props : Props F)
      → has_prop k (merge_props out props) ≡ (has_prop k out || has_prop k props)
  unfolding merge_props has_prop
  has_prop-merge_props k out nil_map = ground arith
  has_prop-merge_props k out empty_map = ground arith
  has_prop-merge_props k out (prop j sc props) = ground (
    arith,
    beq_iff k j,
    beq_iff j k,
    has_prop-merge_props k (put_prop j (merge_into (get_prop j out) sc) out) props,
    has_prop-put_prop k j (merge_into (get_prop j out) sc) out,
  )

  -- What the fields of a schema say of a shape: which are required, which are there, whether it may
  -- be null.
  pub record Describes (sc : Schema F) (required present : Text → Bool) (nullable : Bool)
      : Type 0 where
    pub requires : (k : Text) → contains (facts_of sc).required k ≡ required k
    pub has : (k : Text) → has_prop k (props_of sc) ≡ present k
    pub allows_null : (facts_of sc).nullable ≡ nullable
    pub required_present : (k : Text) → required k ≡ true → present k ≡ true

  has_prop-non_nil : (k : Text) (a b : Props F) → has_prop k (non_nil a b) ≡ has_prop k a
  unfolding has_prop
  has_prop-non_nil k nil_map nil_map = refl
  has_prop-non_nil k nil_map empty_map = refl
  has_prop-non_nil k nil_map (prop j sc b) = refl
  has_prop-non_nil k empty_map b = refl
  has_prop-non_nil k (prop j sc a) b = refl

  -- Without any properties there is nothing that both require.
  common_required :
      (a b : Props F) (ra rb : List Text) (k : Text)
      → (contains ra k ≡ true → has_prop k a ≡ true)
      → contains
          (if not (is_nil_map a && is_nil_map b) then sort_texts (keep_common ra rb) else [])
          k
        ≡ (contains ra k && contains rb k)
  unfolding has_prop contains
  common_required nil_map nil_map ra rb k h = ground (arith, h)
  common_required nil_map empty_map ra rb k h =
      contains-sort_texts (keep_common ra rb) k ∙ contains-keep_common ra rb k
  common_required nil_map (prop j sc b) ra rb k h =
      contains-sort_texts (keep_common ra rb) k ∙ contains-keep_common ra rb k
  common_required empty_map b ra rb k h =
      contains-sort_texts (keep_common ra rb) k ∙ contains-keep_common ra rb k
  common_required (prop j sc a) b ra rb k h =
      contains-sort_texts (keep_common ra rb) k ∙ contains-keep_common ra rb k

  merge_into-Describes :
      (a b : Schema F) (ra rb pa pb : Text → Bool) (na nb : Bool)
      → Describes a ra pa na
      → Describes b rb pb nb
      → Describes (merge_into (to a) b) (λ k. ra k && rb k) (λ k. pa k || pb k) (na || nb)
  unfolding merge_into
  merge_into-Describes (schema fa qa ia) (schema fb qb ib) ra rb pa pb na nb h g = record {
    requires = λ k. ground (
      arith,
      h.requires k,
      g.requires k,
      h.has k,
      h.required_present k,
      common_required qa qb fa.required fb.required k,
    );
    has = λ k. ground (
      arith,
      h.has k,
      g.has k,
      has_prop-non_nil k qa qb,
      has_prop-merge_props k (non_nil qa qb) qb,
    );
    allows_null = ground (arith, h.allows_null, g.allows_null);
    required_present = λ k. ground (arith, h.required_present k, g.required_present k);
  }

  module _ (ops : Floats F) where
    has_prop-props_within :
        (left : ℕ) (fs : Fields F) (k : Text)
        → has_prop k (props_within ops left fs) ≡ contains (keys_of fs) k
    unfolding props_within contains has_prop
    has_prop-props_within left end k = refl
    has_prop-props_within left (field j v fs) k =
        has_prop-put_prop k j (schema_within ops left v) (props_within ops left fs)
        ∙ ap (λ (b : Bool). beq k j || b) (has_prop-props_within left fs k)

    shape_of-Describes :
        (v : Value F)
        → Describes (schema_of_value ops v) (λ k. has_key k v) (λ k. has_key k v) (is_null v)
    unfolding schema_of_value has_prop contains
    shape_of-Describes null = record {
      requires = λ k. refl;
      has = λ k. refl;
      allows_null = refl;
      required_present = λ k h. h;
    }
    shape_of-Describes (bool b) = record {
      requires = λ k. refl;
      has = λ k. refl;
      allows_null = refl;
      required_present = λ k h. h;
    }
    shape_of-Describes (num n) = record {
      requires = λ k. ground arith;
      has = λ k. refl;
      allows_null = ground arith;
      required_present = λ k h. h;
    }
    shape_of-Describes (str t) = record {
      requires = λ k. ground arith;
      has = λ k. refl;
      allows_null = ground arith;
      required_present = λ k h. h;
    }
    shape_of-Describes (arr vs) = record {
      requires = λ k. refl;
      has = λ k. refl;
      allows_null = refl;
      required_present = λ k h. h;
    }
    shape_of-Describes (obj fs) = record {
      requires = contains-sort_texts (keys_of fs);
      has = has_prop-props_within 12 fs;
      allows_null = refl;
      required_present = λ k h. h;
    }

    -- The shapes of values, folded in their order.
    abbrev pub merge_all : Schema F → List (Value F) → Schema F
    merge_all sc [] = sc
    merge_all sc (v ∷ vs) = merge_all (merge_schemas sc (schema_of_value ops v)) vs

    described_on :
        (sc : Schema F) (r p : Text → Bool) (n : Bool) (vs : List (Value F))
        → Describes sc r p n
        → Describes
            (merge_all sc vs)
            (λ k. r k && every (has_key k) vs)
            (λ k. p k || any (has_key k) vs)
            (n || any is_null vs)
    unfolding merge_schemas
    described_on sc r p n [] h = record {
      requires = λ k. ground (arith, h.requires k);
      has = λ k. ground (arith, h.has k);
      allows_null = ground (arith, h.allows_null);
      required_present = λ k. ground (arith, h.required_present k);
    }
    described_on sc r p n (v ∷ vs) h =
        let one =
          merge_into-Describes sc (schema_of_value ops v) r _ p _ n _ h (shape_of-Describes v) in
        let rest = described_on (merge_schemas sc (schema_of_value ops v)) _ _ _ vs one in
        record {
          requires = λ k. ground (arith, rest.requires k);
          has = λ k. ground (arith, rest.has k);
          allows_null = ground (arith, rest.allows_null);
          required_present = λ k. ground (arith, rest.required_present k);
        }

    -- The union of the schemas of several values requires exactly the fields that every value has,
    -- has exactly the fields that some value has, and allows null exactly if some value is null.
    pub merge_all-Describes :
        (v : Value F) (vs : List (Value F))
        → Describes
            (merge_all (schema_of_value ops v) vs)
            (λ k. every (has_key k) (v ∷ vs))
            (λ k. any (has_key k) (v ∷ vs))
            (any is_null (v ∷ vs))
    merge_all-Describes v vs = described_on (schema_of_value ops v) _ _ _ vs (shape_of-Describes v)
