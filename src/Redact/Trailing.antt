-- ===== src/Redact/Trailing.antt =====
-- internal/engine/redact.go, redactPath on a path that ends in `**`.
use optictrace.Prelude.{
  ◌≡◌, [], ◌∷◌, ◌++◌, Bool, true, false, Text, beq, is_empty, if◌then◌else◌, Option, none, some,
  Bool-cases, inl, inr, beq_refl, ◌⊎◌, refl, arith,
}
use optictrace.Json.{Value, Items, Fields, arr, obj, nil, cons, end, field, get_field, AllFields}
use optictrace.Redact.{JsonPath, redact_path, star, double_star}
use optictrace.Redact.Reached.{Walk, WalkItems, WalkFields, Redacted, Here}
use optictrace.Redact.Idempotent.{redact_path_id}

module _ {F : Type 0} (seg : Text) (is_last : Bool) (Rest : Value F → Type 0)
    (always : (beq seg double_star ≡ true) × (is_last ≡ true) ⊎ ((v : Value F) → Rest v)) where
  here : (v : Value F) → beq seg double_star ≡ true → if is_last then Unit else Rest v
  here v e = unless always
    where
      unless :
          (beq seg double_star ≡ true) × (is_last ≡ true) ⊎ ((v : Value F) → Rest v)
          → if is_last then Unit else Rest v
      unless (inl (_, l)) = rw l tt
      unless (inr all) = either is_last
        where
          either : (b : Bool) → if b then Unit else Rest v
          either true = tt
          either false = all v

  below : (v : Value F) → beq seg double_star ≡ false → Rest v
  below v e = from always
    where
      from : (beq seg double_star ≡ true) × (is_last ≡ true) ⊎ ((v : Value F) → Rest v) → Rest v
      from (inl (d, _)) = absurd (ground (arith, d, e))
      from (inr all) = all v

  every_field : (fs : Fields F) → beq seg double_star ≡ false → AllFields Rest fs
  every_field end e = tt
  every_field (field k v fs) e = (below v e, every_field fs e)

  at_field : (o : Option (Value F)) → beq seg double_star ≡ false → Here Rest o
  at_field none e = tt
  at_field (some v) e = below v e

  mutual
    Walk-all : (v : Value F) → Walk seg is_last Rest v
    Walk-all (obj fs) = elim (Bool-cases (beq seg double_star)) [
      | inl e ↦ rw e (here (obj fs) e, walk_fields fs)
      | inr e ↦ elim (Bool-cases (beq seg star)) [
        | inl e' ↦ rw (e, e') (every_field fs e)
        | inr e' ↦ rw (e, e') (at_field (get_field seg fs) e)
      ]
    ]
    Walk-all (arr vs) = walk_items vs
    Walk-all _ = tt

    walk_items : (vs : Items F) → WalkItems seg is_last Rest vs
    walk_items nil = tt
    walk_items (cons v vs) = (Walk-all v, walk_items vs)

    walk_fields : (fs : Fields F) → WalkFields seg is_last Rest fs
    walk_fields end = tt
    walk_fields (field k v fs) = (Walk-all v, walk_fields fs)

module _ {F : Type 0} where
  trailing_Redacted : (path : JsonPath) (v : Value F) → Redacted (path ++ double_star ∷ []) v
  trailing_Redacted [] v =
      Walk-all double_star true (Redacted []) (inl (beq_refl double_star, refl)) v
  trailing_Redacted (seg ∷ path) v =
      Walk-all seg (is_empty (path ++ double_star ∷ [])) (Redacted (path ++ double_star ∷ []))
        (inr (trailing_Redacted path)) v

  -- A path whose last segment is `**` masks nothing, whatever the document and the segments before
  -- it.
  pub redact_path_trailing :
      (v : Value F) (path : JsonPath) → redact_path v (path ++ double_star ∷ []) ≡ v
  redact_path_trailing v path = redact_path_id v _ (trailing_Redacted path v)
