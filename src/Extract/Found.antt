-- ===== src/Extract/Found.antt =====
-- internal/engine/redact.go, FirstString against the values that a path addresses.
use optictrace.Prelude.{
  ◌≡◌, ◌≢◌, refl, [], ◌∷◌, Bool, true, false, Text, beq, is_empty, if◌then◌else◌, Bool-cases, inl,
  inr, Option, none, some,
}
use optictrace.Json.{Value, Items, Fields, arr, obj, nil, cons, end, field, get_field, AllFields}
use optictrace.Redact.{JsonPath, placeholder, redact_path, star, double_star}
use optictrace.Floats.{Floats}
use optictrace.Extract.{
  render, first_of_two, at_key, first_field, find_value, find_in_items, find_in_fields,
  first_string,
}
use optictrace.Redact.Reached.{Walk, WalkItems, WalkFields, Reached, Redacted, Here}
use optictrace.Redact.Complete.{redact_path-Redacted}

-- `Q` holds of the text, if there is one.
abbrev pub IfFound : (Text → Type 0) → Option Text → Type 0
IfFound Q none = Unit
IfFound Q (some s) = Q s

IfFound-first :
    (Q : Text → Type 0) (a b : Option Text)
    → IfFound Q a
    → IfFound Q b
    → IfFound Q (first_of_two a b)
IfFound-first Q none b h k = k
IfFound-first Q (some s) b h k = h

module _ {F : Type 0} (Q : Text → Type 0) (seg : Text) (is_last : Bool) (Rest : Value F → Type 0)
    (below : Value F → Option Text) (sound : (v : Value F) → Rest v → IfFound Q (below v)) where
  first_field-IfFound : (fs : Fields F) → AllFields Rest fs → IfFound Q (first_field below fs)
  first_field-IfFound end h = tt
  first_field-IfFound (field k v fs) (h, hs) =
      IfFound-first Q _ _ (sound v h) (first_field-IfFound fs hs)

  at_key-IfFound : (o : Option (Value F)) → Here Rest o → IfFound Q (at_key below o)
  at_key-IfFound none h = tt
  at_key-IfFound (some v) h = sound v h

  unless_last :
      (b : Bool) (v : Value F)
      → (if b then Unit else Rest v)
      → IfFound Q (if b then none else below v)
  unless_last true v h = tt
  unless_last false v h = sound v h

  mutual
    unfolding find_value

    find_value-IfFound :
        (v : Value F) → Walk seg is_last Rest v → IfFound Q (find_value seg is_last below v)
    find_value-IfFound (obj fs) h = elim (Bool-cases (beq seg double_star)) [
      | inl e ↦
          let (h1, h2) = rw e at h in
          rw e
            (IfFound-first Q _ _ (unless_last is_last (obj fs) h1) (find_in_fields-IfFound fs h2))
      | inr e ↦ elim (Bool-cases (beq seg star)) [
        | inl e' ↦ rw (e, e') (first_field-IfFound fs (rw (e, e') at h))
        | inr e' ↦ rw (e, e') (at_key-IfFound (get_field seg fs) (rw (e, e') at h))
      ]
    ]
    find_value-IfFound (arr vs) h = find_in_items-IfFound vs h
    find_value-IfFound _ h = tt

    find_in_items-IfFound :
        (vs : Items F)
        → WalkItems seg is_last Rest vs
        → IfFound Q (find_in_items seg is_last below vs)
    find_in_items-IfFound nil h = tt
    find_in_items-IfFound (cons v vs) (h, hs) =
        IfFound-first Q _ _ (find_value-IfFound v h) (find_in_items-IfFound vs hs)

    find_in_fields-IfFound :
        (fs : Fields F)
        → WalkFields seg is_last Rest fs
        → IfFound Q (find_in_fields seg is_last below fs)
    find_in_fields-IfFound end h = tt
    find_in_fields-IfFound (field k v fs) (h, hs) =
        IfFound-first Q _ _ (find_value-IfFound v h) (find_in_fields-IfFound fs hs)

module _ {F : Type 0} (ops : Floats F) where
  -- A string that is found at a path is the rendering of a value that the path addresses: what
  -- holds of all those renderings holds of it.
  pub first_string-IfFound :
      (Q : Text → Type 0) (path : JsonPath) (v : Value F)
      → Reached (λ u. IfFound Q (render ops u)) path v
      → IfFound Q (first_string ops path v)
  unfolding first_string
  first_string-IfFound Q [] v h = h
  first_string-IfFound Q (seg ∷ rest) v h =
      find_value-IfFound Q seg (is_empty rest) (Reached (λ u. IfFound Q (render ops u)) rest)
        (first_string ops rest) (first_string-IfFound Q rest) v h

  Redacted-IfFound :
      (path : JsonPath) (v : Value F)
      → Redacted path v
      → IfFound (λ t. t ≡ placeholder) (first_string ops path v)
  unfolding first_string
  Redacted-IfFound [] v h = rw h refl
  Redacted-IfFound (seg ∷ rest) v h =
      find_value-IfFound (λ t. t ≡ placeholder) seg (is_empty rest) (Redacted rest)
        (first_string ops rest) (Redacted-IfFound rest) v h

  -- In a document in which all that redactPath reaches is masked, a path finds nothing but the placeholder.
  pub Redacted-first_string :
      (path : JsonPath) (v : Value F) (s : Text)
      → Redacted path v
      → first_string ops path v ≡ some s
      → s ≡ placeholder
  Redacted-first_string path v s h found = rw found at (Redacted-IfFound path v h)

  -- A string found along a path of at least one segment after redaction along that path is the
  -- placeholder.
  pub first_string-redact_path :
      (path : JsonPath) (v : Value F) (s : Text)
      → path ≢ []
      → first_string ops path (redact_path v path) ≡ some s
      → s ≡ placeholder
  first_string-redact_path path v s ne found =
      Redacted-first_string path (redact_path v path) s (redact_path-Redacted v path ne) found
