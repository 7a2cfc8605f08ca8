-- ===== src/Redact/Stays.antt =====
-- internal/engine/redact.go, redactPath: what is masked, under a further redaction.
use optictrace.Prelude.{
  refl, [], ◌∷◌, Bool, true, false, Text, beq, is_empty, if◌then◌else◌, Bool-cases, inl, inr,
}
use optictrace.Json.{Value, Items, Fields, get_field, AllFields}
use optictrace.Redact.{JsonPath, star, double_star}
use optictrace.Redact.Reached.{Walk, WalkItems, WalkFields, IsMasked, Redacted, Here}
use optictrace.Redact.Masks.{
  Masks, mask, keep, in_arr, in_obj, MasksItems, items_end, item, MasksFields, fields_end, entry,
}

module _ {F : Type 0} where
  Masks-IsMasked : {v w : Value F} → Masks v w → IsMasked v → IsMasked w
  Masks-IsMasked (mask v) h = refl
  Masks-IsMasked (keep v) h = h
  Masks-IsMasked (in_arr m) h = cc
  Masks-IsMasked (in_obj m) h = cc

unless_imp : {A B : Type 0} (b : Bool) → (A → B) → (if b then Unit else A) → (if b then Unit else B)
unless_imp true f h = tt
unless_imp false f h = f h

module _ {F : Type 0} (seg : Text) (is_last : Bool) (Rest : Value F → Type 0)
    (stable : (v w : Value F) → Masks v w → Rest v → Rest w) where
  fields_AllFields : {fs gs : Fields F} → MasksFields fs gs → AllFields Rest fs → AllFields Rest gs
  fields_AllFields fields_end h = tt
  fields_AllFields (entry {v = v} {w = w} m ms) (h, hs) = (stable v w m h, fields_AllFields ms hs)

  fields_Here :
      {fs gs : Fields F}
      → MasksFields fs gs
      → Here Rest (get_field seg fs)
      → Here Rest (get_field seg gs)
  unfolding get_field
  fields_Here fields_end h = tt
  fields_Here (entry {k = k} {v = v} {w = w} m ms) h = elim (Bool-cases (beq k seg)) [
    | inl e ↦ rw e (stable v w m (rw e at h))
    | inr e ↦ rw e (fields_Here ms (rw e at h))
  ]

  mutual
    Walk-Masks : {v w : Value F} → Masks v w → Walk seg is_last Rest v → Walk seg is_last Rest w
    Walk-Masks (mask v) h = tt
    Walk-Masks (keep v) h = h
    Walk-Masks (in_arr m) h = WalkItems-Masks m h
    Walk-Masks (in_obj {fs = fs} {gs = gs} m) h = elim (Bool-cases (beq seg double_star)) [
      | inl e ↦
          let (h1, h2) = rw e at h in
          rw e (unless_imp is_last (stable _ _ (in_obj m)) h1, WalkFields-Masks m h2)
      | inr e ↦ elim (Bool-cases (beq seg star)) [
        | inl e' ↦ rw (e, e') (fields_AllFields m (rw (e, e') at h))
        | inr e' ↦ rw (e, e') (fields_Here m (rw (e, e') at h))
      ]
    ]

    WalkItems-Masks :
        {vs ws : Items F}
        → MasksItems vs ws
        → WalkItems seg is_last Rest vs
        → WalkItems seg is_last Rest ws
    WalkItems-Masks items_end h = tt
    WalkItems-Masks (item m ms) (h, hs) = (Walk-Masks m h, WalkItems-Masks ms hs)

    WalkFields-Masks :
        {vs ws : Fields F}
        → MasksFields vs ws
        → WalkFields seg is_last Rest vs
        → WalkFields seg is_last Rest ws
    WalkFields-Masks fields_end h = tt
    WalkFields-Masks (entry m ms) (h, hs) = (Walk-Masks m h, WalkFields-Masks ms hs)

module _ {F : Type 0} where
  -- What has been masked stays masked under any further redaction.
  pub Masks-Redacted :
      (path : JsonPath) (v w : Value F) → Masks v w → Redacted path v → Redacted path w
  Masks-Redacted [] v w m h = Masks-IsMasked m h
  Masks-Redacted (seg ∷ rest) v w m h =
      Walk-Masks seg (is_empty rest) (Redacted rest) (Masks-Redacted rest) m h
