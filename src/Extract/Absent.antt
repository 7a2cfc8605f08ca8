-- ===== src/Extract/Absent.antt =====
-- internal/engine/redact.go, FirstString when it reports nothing.
use optictrace.Prelude.{
  ◌≡◌, refl, [], ◌∷◌, Bool, true, false, Text, beq, is_empty, if◌then◌else◌, Bool-cases, inl, inr,
  Option, none, some,
}
use optictrace.Json.{Value, Items, Fields, arr, obj, nil, cons, end, field, get_field, AllFields}
use optictrace.Redact.{JsonPath, star, double_star}
use optictrace.Redact.Reached.{Walk, WalkItems, WalkFields, Reached, Here}
use optictrace.Floats.{Floats}
use optictrace.Extract.{
  render, first_of_two, at_key, first_field, find_value, find_in_items, find_in_fields,
  first_string,
}

first_of_two-none : (a b : Option Text) → first_of_two a b ≡ none → (a ≡ none) × (b ≡ none)
first_of_two-none none b h = (refl, h)
first_of_two-none (some s) b h = cc

module _ {F : Type 0} (seg : Text) (is_last : Bool) (Rest : Value F → Type 0)
    (below : Value F → Option Text) (missed : (v : Value F) → below v ≡ none → Rest v) where
  first_field-none : (fs : Fields F) → first_field below fs ≡ none → AllFields Rest fs
  first_field-none end h = tt
  first_field-none (field k v fs) h =
      let (a, b) = first_of_two-none _ _ h in (missed v a, first_field-none fs b)

  at_key-none : (o : Option (Value F)) → at_key below o ≡ none → Here Rest o
  at_key-none none h = tt
  at_key-none (some v) h = missed v h

  unless_last :
      (b : Bool) (v : Value F) → (if b then none else below v) ≡ none → if b then Unit else Rest v
  unless_last true v h = tt
  unless_last false v h = missed v h

  mutual
    unfolding find_value

    find_value-none :
        (v : Value F) → find_value seg is_last below v ≡ none → Walk seg is_last Rest v
    find_value-none (obj fs) h = elim (Bool-cases (beq seg double_star)) [
      | inl e ↦
          let (a, b) = first_of_two-none _ _ (rw e at h) in
          rw e (unless_last is_last (obj fs) a, find_in_fields-none fs b)
      | inr e ↦ elim (Bool-cases (beq seg star)) [
        | inl e' ↦ rw (e, e') (first_field-none fs (rw (e, e') at h))
        | inr e' ↦ rw (e, e') (at_key-none (get_field seg fs) (rw (e, e') at h))
      ]
    ]
    find_value-none (arr vs) h = find_in_items-none vs h
    find_value-none _ h = tt

    find_in_items-none :
        (vs : Items F) → find_in_items seg is_last below vs ≡ none → WalkItems seg is_last Rest vs
    find_in_items-none nil h = tt
    find_in_items-none (cons v vs) h =
        let (a, b) = first_of_two-none _ _ h in (find_value-none v a, find_in_items-none vs b)

    find_in_fields-none :
        (fs : Fields F)
        → find_in_fields seg is_last below fs ≡ none
        → WalkFields seg is_last Rest fs
    find_in_fields-none end h = tt
    find_in_fields-none (field k v fs) h =
        let (a, b) = first_of_two-none _ _ h in (find_value-none v a, find_in_fields-none fs b)

-- If no string is reported at a path, then no value that the path addresses has a rendering.
pub first_string-none :
    {F : Type 0} (ops : Floats F) (path : JsonPath) (v : Value F)
    → first_string ops path v ≡ none
    → Reached (λ u. render ops u ≡ none) path v
unfolding first_string
first_string-none ops [] v h = h
first_string-none ops (seg ∷ rest) v h =
    find_value-none seg (is_empty rest) (Reached (λ u. render ops u ≡ none) rest)
      (first_string ops rest) (first_string-none ops rest) v h
