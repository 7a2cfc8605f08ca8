-- ===== src/Redact/Idempotent.antt =====
-- internal/engine/redact.go, redactPath applied twice.
use optictrace.Prelude.{
  ℕ, zero, suc, ◌≡◌, refl, [], ◌∷◌, Text, beq, is_empty, if◌then◌else◌, Bool-cases, inl, inr, ap,
  sym,
}
use optictrace.Json.{
  Value, Items, Fields, arr, obj, nil, cons, end, field, map_items, map_fields, update_field,
  get_field, AllFields,
}
use optictrace.Redact.{JsonPath, fields_of, redact_fuel, redact_path, masked, star, double_star}
use optictrace.Redact.Reached.{WalkItems, WalkFields, Redacted, Here}
use optictrace.Redact.Complete.{object_deep, object_star, object_key, redact_path-Redacted}

module _ {F : Type 0} where
  masked_id :
      (rest : JsonPath) (below : Value F → Value F)
      → ((v : Value F) → Redacted rest v → below v ≡ v)
      → (v : Value F) → Redacted rest v
      → masked (is_empty rest) below v ≡ v
  masked_id [] below f v h = sym h
  masked_id (s ∷ rest) below f v h = f v h

  map_fields_id :
      (P : Value F → Type 0) (f : Value F → Value F)
      → ((v : Value F) → P v → f v ≡ v)
      → (fs : Fields F) → AllFields P fs
      → map_fields f fs ≡ fs
  unfolding map_fields
  map_fields_id P f e end h = refl
  map_fields_id P f e (field k v fs) (h, hs) = cc (e v h, map_fields_id P f e fs hs)

  update_field_id :
      (P : Value F → Type 0) (f : Value F → Value F)
      → ((v : Value F) → P v → f v ≡ v)
      → (seg : Text) (fs : Fields F) → Here P (get_field seg fs)
      → update_field seg f fs ≡ fs
  unfolding update_field get_field
  update_field_id P f e seg end h = refl
  update_field_id P f e seg (field k v fs) h = elim (Bool-cases (beq k seg)) [
    | inl q ↦ rw q (ap (λ u. field k u fs) (e v (rw q at h)))
    | inr q ↦ rw q (ap (field k v) (update_field_id P f e seg fs (rw q at h)))
  ]

module _ {F : Type 0} (seg : Text) (rest : JsonPath) (onward : Value F → Value F)
    (onward_id : (v : Value F) → Redacted (seg ∷ rest) v → onward v ≡ v) where
  deep_fields_id :
      (fs : Fields F)
      → WalkFields seg (is_empty rest) (Redacted rest) fs
      → map_fields onward fs ≡ fs
  unfolding map_fields
  deep_fields_id end h = refl
  deep_fields_id (field k v fs) (h, hs) = cc (onward_id v h, deep_fields_id fs hs)

  deep_items_id :
      (vs : Items F) → WalkItems seg (is_empty rest) (Redacted rest) vs → map_items onward vs ≡ vs
  unfolding map_items
  deep_items_id nil h = refl
  deep_items_id (cons v vs) (h, hs) = cc (onward_id v h, deep_items_id vs hs)

module _ {F : Type 0} where
  fields_below :
      (rest : JsonPath) (below : Value F → Value F) (fs : Fields F)
      → ((v : Value F) → Redacted rest v → below v ≡ v)
      → (if is_empty rest then Unit else Redacted rest (obj fs))
      → (if is_empty rest then fs else fields_of (below (obj fs))) ≡ fs
  fields_below [] below fs f h = refl
  fields_below (s ∷ rest) below fs f h = rw (f (obj fs) h)

  -- A document in which all that the path addresses is masked is left as it is, at any fuel.
  redact_fuel_id :
      (n : ℕ) (path : JsonPath) (v : Value F) → Redacted path v → redact_fuel n path v ≡ v
  unfolding redact_fuel
  redact_fuel_id zero path v h = refl
  redact_fuel_id (suc n) [] v h = refl
  redact_fuel_id (suc n) (seg ∷ rest) (obj fs) h = elim (Bool-cases (beq seg double_star)) [
    | inl e ↦
        let (here, deeper) = rw e at h in
        rw (object_deep seg rest _ _ fs e, fields_below rest _ fs (redact_fuel_id n rest) here)
          (ap obj (deep_fields_id seg rest _ (redact_fuel_id n (seg ∷ rest)) fs deeper))
    | inr e ↦ elim (Bool-cases (beq seg star)) [
      | inl e' ↦ rw (object_star seg rest _ _ fs e e') (
          ap obj (
            map_fields_id (Redacted rest) _ (masked_id rest _ (redact_fuel_id n rest)) fs
              (rw (e, e') at h)))
      | inr e' ↦ rw (object_key seg rest _ _ fs e e') (
          ap obj (
            update_field_id (Redacted rest) _ (masked_id rest _ (redact_fuel_id n rest)) seg fs
              (rw (e, e') at h)))
    ]
  ]
  redact_fuel_id (suc n) (seg ∷ rest) (arr vs) h =
      ap arr (deep_items_id seg rest _ (redact_fuel_id n (seg ∷ rest)) vs h)
  redact_fuel_id (suc n) (seg ∷ rest) _ h = refl

  -- A document in which every value that the path addresses is the placeholder already, as when it
  -- addresses none, is unchanged.
  pub redact_path_id : (v : Value F) (path : JsonPath) → Redacted path v → redact_path v path ≡ v
  unfolding redact_path
  redact_path_id v path h = redact_fuel_id _ path v h

  redact_fuel_nil : (n : ℕ) (v : Value F) → redact_fuel n [] v ≡ v
  unfolding redact_fuel
  redact_fuel_nil zero v = refl
  redact_fuel_nil (suc n) v = refl

  -- The empty path redacts nothing.
  redact_path_nil : (v : Value F) → redact_path v [] ≡ v
  unfolding redact_path
  redact_path_nil v = redact_fuel_nil _ v

  -- A second redaction along the same path changes nothing.
  pub redact_path_idem :
      (v : Value F) (path : JsonPath) → redact_path (redact_path v path) path ≡ redact_path v path
  redact_path_idem v [] = redact_path_nil _
  redact_path_idem v (seg ∷ rest) =
      redact_path_id (redact_path v (seg ∷ rest)) (seg ∷ rest)
        (redact_path-Redacted v (seg ∷ rest) (λ e. cc))
