-- ===== src/Redact/Masks.antt =====
-- internal/engine/redact.go: how a document and its redaction compare.
use optictrace.Prelude.{
  ℕ, zero, suc, ◌≤◌, ◌≡◌, refl, [], ◌∷◌, Bool, true, false, Text, beq, arith, if_cases, is_empty,
}
use optictrace.Json.{
  Value, Items, Fields, null, bool, num, str, arr, obj, nil, cons, end, field, map_items,
  map_fields, update_field, depth, depth_items, depth_fields,
}
use optictrace.Redact.{
  JsonPath, placeholder, redact_fuel, redact_path, masked, redact_object, star, double_star,
}

mutual
  pub data Masks {F : Type 0} : Value F → Value F → Type 0 where
    mask : (v : Value F) → Masks v (str placeholder)
    keep : (v : Value F) → Masks v v
    in_arr : {vs ws : Items F} → MasksItems vs ws → Masks (arr vs) (arr ws)
    in_obj : {fs gs : Fields F} → MasksFields fs gs → Masks (obj fs) (obj gs)

  pub data MasksItems {F : Type 0} : Items F → Items F → Type 0 where
    items_end : MasksItems nil nil
    item :
        {v w : Value F} {vs ws : Items F}
        → Masks v w
        → MasksItems vs ws
        → MasksItems (cons v vs) (cons w ws)

  pub data MasksFields {F : Type 0} : Fields F → Fields F → Type 0 where
    fields_end : MasksFields end end
    entry :
        {k : Text} {v w : Value F} {fs gs : Fields F}
        → Masks v w
        → MasksFields fs gs
        → MasksFields (field k v fs) (field k w gs)

module _ {F : Type 0} where
  pub items_keep : (vs : Items F) → MasksItems vs vs
  items_keep nil = items_end
  items_keep (cons v vs) = item (keep v) (items_keep vs)

  pub fields_keep : (fs : Fields F) → MasksFields fs fs
  fields_keep end = fields_end
  fields_keep (field k v fs) = entry (keep v) (fields_keep fs)

  mutual
    pub Masks-trans : {u v w : Value F} → Masks u v → Masks v w → Masks u w
    Masks-trans h (mask _) = mask _
    Masks-trans h (keep _) = h
    Masks-trans (keep _) (in_arr k) = in_arr k
    Masks-trans (in_arr h) (in_arr k) = in_arr (items_trans h k)
    Masks-trans (keep _) (in_obj k) = in_obj k
    Masks-trans (in_obj h) (in_obj k) = in_obj (fields_trans h k)

    items_trans : {us vs ws : Items F} → MasksItems us vs → MasksItems vs ws → MasksItems us ws
    items_trans h items_end = h
    items_trans (item h hs) (item k ks) = item (Masks-trans h k) (items_trans hs ks)

    fields_trans : {us vs ws : Fields F} → MasksFields us vs → MasksFields vs ws → MasksFields us ws
    fields_trans h fields_end = h
    fields_trans (entry h hs) (entry k ks) = entry (Masks-trans h k) (fields_trans hs ks)

  pub map_items-Masks :
      (f : Value F → Value F)
      → ((v : Value F) → Masks v (f v))
      → (vs : Items F) → MasksItems vs (map_items f vs)
  unfolding map_items
  map_items-Masks f h nil = items_end
  map_items-Masks f h (cons v vs) = item (h v) (map_items-Masks f h vs)

  pub map_fields-Masks :
      (f : Value F → Value F)
      → ((v : Value F) → Masks v (f v))
      → (fs : Fields F) → MasksFields fs (map_fields f fs)
  unfolding map_fields
  map_fields-Masks f h end = fields_end
  map_fields-Masks f h (field k v fs) = entry (h v) (map_fields-Masks f h fs)

  update_field-Masks :
      (seg : Text) (f : Value F → Value F)
      → ((v : Value F) → Masks v (f v))
      → (fs : Fields F) → MasksFields fs (update_field seg f fs)
  unfolding update_field
  update_field-Masks seg f h end = fields_end
  update_field-Masks seg f h (field k v fs) =
      if_cases (MasksFields (field k v fs)) (beq k seg) _ _ (λ _. entry (h v) (fields_keep fs))
        (λ _. entry (keep v) (update_field-Masks seg f h fs))

  masked-Masks :
      (b : Bool) (f : Value F → Value F)
      → ((v : Value F) → Masks v (f v))
      → (v : Value F) → Masks v (masked b f v)
  masked-Masks true f h v = mask v
  masked-Masks false f h v = h v

  -- An object stays an object, with its keys.
  abbrev pub KeepsKeys : Fields F → Value F → Type 0
  KeepsKeys fs w = (gs : Fields F) × (w ≡ obj gs) × MasksFields fs gs

  redact_object-KeepsKeys :
      (seg : Text) (rest : JsonPath) (onward below : Value F → Value F) (fs : Fields F)
      → ((v : Value F) → Masks v (onward v))
      → ((v : Value F) → Masks v (below v))
      → KeepsKeys fs (below (obj fs))
      → KeepsKeys fs (redact_object seg rest onward below fs)
  unfolding redact_object
  redact_object-KeepsKeys seg rest onward below fs ho hb (gs, e, m) =
      if_cases (KeepsKeys fs) (beq seg double_star) _ _
        (λ _.
          if_cases (λ hs. KeepsKeys fs (obj (map_fields onward hs))) (is_empty rest) _ _
            (λ _. (map_fields onward fs, refl, map_fields-Masks onward ho fs))
            (λ _. (map_fields onward gs, rw e, fields_trans m (map_fields-Masks onward ho gs))))
        (λ _.
          if_cases (KeepsKeys fs) (beq seg star) _ _
            (λ _. (_, refl, map_fields-Masks _ (masked-Masks (is_empty rest) below hb) fs))
            (λ _. (_, refl, update_field-Masks seg _ (masked-Masks (is_empty rest) below hb) fs)))

  mutual
    unfolding redact_fuel

    pub redact_fuel-KeepsKeys :
        (n : ℕ) (path : JsonPath) (fs : Fields F) → KeepsKeys fs (redact_fuel n path (obj fs))
    redact_fuel-KeepsKeys zero path fs = (fs, refl, fields_keep fs)
    redact_fuel-KeepsKeys (suc n) [] fs = (fs, refl, fields_keep fs)
    redact_fuel-KeepsKeys (suc n) (seg ∷ rest) fs =
        redact_object-KeepsKeys seg rest _ _ fs (redact_fuel-Masks n (seg ∷ rest))
          (redact_fuel-Masks n rest) (redact_fuel-KeepsKeys n rest fs)

    pub redact_fuel-Masks : (n : ℕ) (path : JsonPath) (v : Value F) → Masks v (redact_fuel n path v)
    redact_fuel-Masks zero path v = keep v
    redact_fuel-Masks (suc n) [] v = keep v
    redact_fuel-Masks (suc n) (seg ∷ rest) (arr vs) =
        in_arr (map_items-Masks _ (redact_fuel-Masks n (seg ∷ rest)) vs)
    redact_fuel-Masks (suc n) (seg ∷ rest) (obj fs) =
        let (gs, e, m) =
          redact_object-KeepsKeys seg rest _ _ fs (redact_fuel-Masks n (seg ∷ rest))
            (redact_fuel-Masks n rest) (redact_fuel-KeepsKeys n rest fs) in
        rw e (in_obj m)
    redact_fuel-Masks (suc n) (seg ∷ rest) null = keep _
    redact_fuel-Masks (suc n) (seg ∷ rest) (bool b) = keep _
    redact_fuel-Masks (suc n) (seg ∷ rest) (num x) = keep _
    redact_fuel-Masks (suc n) (seg ∷ rest) (str s) = keep _

  -- Redaction along a path changes a document only by putting the placeholder in place of parts of
  -- it; keys, positions and all other values stay.
  pub redact_path-Masks : (v : Value F) (path : JsonPath) → Masks v (redact_path v path)
  unfolding redact_path
  redact_path-Masks v path = redact_fuel-Masks _ path v

  depth_pos : (v : Value F) → 1 ≤ depth v
  unfolding depth
  depth_pos (arr vs) = omega arith
  depth_pos (obj fs) = omega arith
  depth_pos _ = omega arith

  mutual
    unfolding depth

    pub Masks-depth : {v w : Value F} → Masks v w → depth w ≤ depth v
    Masks-depth (mask v) = depth_pos v
    Masks-depth (keep v) = omega arith
    Masks-depth (in_arr h) = omega (arith, items_depth h)
    Masks-depth (in_obj h) = omega (arith, fields_depth h)

    items_depth : {vs ws : Items F} → MasksItems vs ws → depth_items ws ≤ depth_items vs
    items_depth items_end = omega arith
    items_depth (item h hs) = omega (arith, Masks-depth h, items_depth hs)

    pub fields_depth : {vs ws : Fields F} → MasksFields vs ws → depth_fields ws ≤ depth_fields vs
    fields_depth fields_end = omega arith
    fields_depth (entry h hs) = omega (arith, Masks-depth h, fields_depth hs)
