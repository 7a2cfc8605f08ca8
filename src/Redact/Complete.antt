-- ===== src/Redact/Complete.antt =====
-- internal/engine/redact.go, redactPath against the values that a path addresses.
use optictrace.Prelude.{
  ℕ, zero, suc, ◌+◌, ◌≤◌, ◌≡◌, ◌≢◌, refl, [], ◌∷◌, true, false, Text, beq, arith, is_empty, length,
  if◌then◌else◌, Bool-cases, inl, inr,
}
use optictrace.Json.{
  Value, Items, Fields, arr, obj, nil, cons, end, field, map_items, map_fields, update_field,
  get_field, depth, depth_items, depth_fields, AllFields, AllItems,
}
use optictrace.Redact.{
  JsonPath, fields_of, redact_fuel, redact_path, masked, redact_object, star, double_star,
}
use optictrace.Redact.Addressed.{ends_deep, IsMaskedAt, Redacted-IsMaskedAt}
use optictrace.Redact.Reached.{WalkItems, WalkFields, Redacted, Here}
use optictrace.Redact.Masks.{
  in_obj, map_fields-Masks, redact_fuel-Masks, fields_depth, redact_fuel-KeepsKeys,
}
use optictrace.Redact.Stays.{Masks-Redacted}

module _ {F : Type 0} where
  -- The recursive calls of one round, as facts about the results.
  module _ (seg : Text) (rest : JsonPath) (onward below : Value F → Value F) where
    abbrev Onward : Value F → Type 0
    Onward v = Redacted (seg ∷ rest) (onward v)

    update_field-Here :
        (fs : Fields F)
        → AllFields (λ v. Redacted rest (masked (is_empty rest) below v)) fs
        → Here (Redacted rest) (get_field seg (update_field seg (masked (is_empty rest) below) fs))
    unfolding get_field update_field
    update_field-Here end h = tt
    update_field-Here (field k v fs) (h, hs) = elim (Bool-cases (beq k seg)) [
      | inl e ↦ rw (e, e) h
      | inr e ↦ rw (e, e) (update_field-Here fs hs)
    ]

    map_fields-AllFields :
        (fs : Fields F)
        → AllFields (λ v. Redacted rest (masked (is_empty rest) below v)) fs
        → AllFields (Redacted rest) (map_fields (masked (is_empty rest) below) fs)
    unfolding map_fields
    map_fields-AllFields end h = tt
    map_fields-AllFields (field k v fs) (h, hs) = (h, map_fields-AllFields fs hs)

    map_fields-WalkFields :
        (fs : Fields F)
        → AllFields Onward fs
        → WalkFields seg (is_empty rest) (Redacted rest) (map_fields onward fs)
    unfolding map_fields
    map_fields-WalkFields end h = tt
    map_fields-WalkFields (field k v fs) (h, hs) = (h, map_fields-WalkFields fs hs)

    map_items-WalkItems :
        (vs : Items F)
        → AllItems Onward vs
        → WalkItems seg (is_empty rest) (Redacted rest) (map_items onward vs)
    unfolding map_items
    map_items-WalkItems nil h = tt
    map_items-WalkItems (cons v vs) (h, hs) = (h, map_items-WalkItems vs hs)

module _ {F : Type 0} (P : Value F → Type 0) (d : ℕ)
    (small : (v : Value F) → depth v ≤ d → P v) where
  fields_small : (fs : Fields F) → depth_fields fs ≤ d → AllFields P fs
  unfolding depth
  fields_small end h = tt
  fields_small (field k v fs) h = (small v (omega arith), fields_small fs (omega arith))

  items_small : (vs : Items F) → depth_items vs ≤ d → AllItems P vs
  unfolding depth
  items_small nil h = tt
  items_small (cons v vs) h = (small v (omega arith), items_small vs (omega arith))

-- What the recursive call gives for a fuel that is enough.
abbrev Enough : Type 0 → ℕ → JsonPath → Type 0
Enough F n path = (v : Value F) → depth v + length path ≤ n → Redacted path (redact_fuel n path v)

module _ {F : Type 0} where
  module _ (seg : Text) (rest : JsonPath) (onward below : Value F → Value F) (fs : Fields F) where
    pub object_deep :
        beq seg double_star ≡ true
        → redact_object seg rest onward below fs
          ≡ obj (map_fields onward (if is_empty rest then fs else fields_of (below (obj fs))))
    unfolding redact_object
    object_deep e = rw e

    pub object_star :
        beq seg double_star ≡ false
        → beq seg star ≡ true
        → redact_object seg rest onward below fs
          ≡ obj (map_fields (masked (is_empty rest) below) fs)
    unfolding redact_object
    object_star e e' = rw (e, e')

    pub object_key :
        beq seg double_star ≡ false
        → beq seg star ≡ false
        → redact_object seg rest onward below fs
          ≡ obj (update_field seg (masked (is_empty rest) below) fs)
    unfolding redact_object
    object_key e e' = rw (e, e')

  masked-Redacted :
      (n : ℕ) (rest : JsonPath) (v : Value F)
      → (rest ≢ [] → Enough F n rest)
      → depth v + length rest ≤ n
      → Redacted rest (masked (is_empty rest) (redact_fuel n rest) v)
  masked-Redacted n [] v ih h = refl
  masked-Redacted n (s ∷ rest) v ih h = ih (λ e. cc) v h

  -- `**`: the rest of the path is applied at this level, then the whole path at every child.
  deep-Redacted :
      (n : ℕ) (seg : Text) (rest : JsonPath) (fs : Fields F)
      → beq seg double_star ≡ true
      → Enough F n (seg ∷ rest)
      → (rest ≢ [] → Enough F n rest)
      → suc (depth_fields fs) + length rest ≤ n
      → Redacted
          (seg ∷ rest)
          (redact_object seg rest (redact_fuel n (seg ∷ rest)) (redact_fuel n rest) fs)
  unfolding depth
  deep-Redacted n seg [] fs e ih ih_rest h = rw (object_deep seg [] _ _ fs e) (
      rw e (
        tt,
        map_fields-WalkFields seg [] _ (redact_fuel n []) fs
            (fields_small _ (depth_fields fs) (λ v le. ih v (omega arith)) fs (omega arith)),
      ))
  deep-Redacted n seg (s ∷ rest) fs e ih ih_rest h =
      let (gs, eq, m) = redact_fuel-KeepsKeys n (s ∷ rest) fs in
      let below : Value F → Value F = redact_fuel n (s ∷ rest) in
      let hs = map_fields (redact_fuel n (seg ∷ s ∷ rest)) gs in
      let here : Redacted (s ∷ rest) (obj hs) =
        Masks-Redacted (s ∷ rest) (obj gs) (obj hs)
          (in_obj (map_fields-Masks _ (redact_fuel-Masks n (seg ∷ s ∷ rest)) gs))
          (rw eq at (ih_rest (λ p. cc) (obj fs) h)) in
      rw (object_deep seg (s ∷ rest) _ _ fs e, eq)
        (rw e (
          here,
          map_fields-WalkFields seg (s ∷ rest) _ below gs
              (fields_small _ (depth_fields fs) (λ v le. ih v (omega arith)) gs (fields_depth m)),
        ))

  redact_fuel-Redacted : (n : ℕ) (path : JsonPath) → path ≢ [] → Enough F n path
  unfolding redact_fuel depth
  redact_fuel-Redacted n [] ne v h = absurd (ne refl)
  redact_fuel-Redacted zero (seg ∷ rest) ne v h = absurd (omega arith)
  redact_fuel-Redacted (suc n) (seg ∷ rest) ne (obj fs) h =
      elim (Bool-cases (beq seg double_star)) [
        | inl e ↦
            deep-Redacted n seg rest fs e (redact_fuel-Redacted n (seg ∷ rest) ne)
              (redact_fuel-Redacted n rest) (omega arith)
        | inr e ↦
            let children =
              fields_small (λ v. Redacted rest (masked (is_empty rest) (redact_fuel n rest) v))
                (depth_fields fs)
                (λ v le. masked-Redacted n rest v (redact_fuel-Redacted n rest) (omega arith)) fs
                (omega arith) in
            elim (Bool-cases (beq seg star)) [
              | inl e' ↦
                  rw (object_star seg rest _ _ fs e e', e, e')
                    (map_fields-AllFields seg rest (redact_fuel n rest) (redact_fuel n rest) fs
                      children)
              | inr e' ↦
                  rw (object_key seg rest _ _ fs e e', e, e')
                    (update_field-Here seg rest (redact_fuel n rest) (redact_fuel n rest) fs
                      children)
            ]
      ]
  redact_fuel-Redacted (suc n) (seg ∷ rest) ne (arr vs) h =
      map_items-WalkItems seg rest _ (redact_fuel n rest) vs (
        items_small _ (depth_items vs)
          (λ v le. redact_fuel-Redacted n (seg ∷ rest) ne v (omega arith)) vs (omega arith))
  redact_fuel-Redacted (suc n) (seg ∷ rest) ne _ h = tt

  -- redactPath masks all that it reaches.
  pub redact_path-Redacted :
      (v : Value F) (path : JsonPath) → path ≢ [] → Redacted path (redact_path v path)
  unfolding redact_path
  redact_path-Redacted v path ne = redact_fuel-Redacted _ path ne v (omega arith)

  -- After redaction along a path of at least one segment that does not end in `**`, every value
  -- that the path addresses, through arrays, with `*` for every field and `**` for zero or more
  -- levels, is the placeholder.
  pub redact_path-IsMaskedAt :
      (v : Value F) (path : JsonPath)
      → path ≢ []
      → ends_deep path ≡ false
      → IsMaskedAt path (redact_path v path)
  redact_path-IsMaskedAt v path ne e w a = Redacted-IsMaskedAt a e (redact_path-Redacted v path ne)
