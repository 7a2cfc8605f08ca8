-- ===== src/Extract/Sums.antt =====
-- internal/engine/redact.go, sumNumeric on redacted documents.
use optictrace.Prelude.{
  ◌≡◌, ◌≢◌, refl, [], ◌∷◌, Bool, true, false, Text, beq, is_empty, if◌then◌else◌, Bool-cases, inl,
  inr, Option, none, some,
}
use optictrace.Json.{Value, Items, Fields, arr, obj, nil, cons, end, field, get_field, AllFields}
use optictrace.Redact.{JsonPath, redact_path, star, double_star}
use optictrace.Redact.Reached.{Walk, WalkItems, WalkFields, Redacted, Here}
use optictrace.Redact.Complete.{redact_path-Redacted}
use optictrace.Floats.{Floats}
use optictrace.Extract.{
  Sum, sum_field, sum_at_key, add_value, add_in_items, add_in_fields, sum_numeric,
}

module _ {F : Type 0} (seg : Text) (is_last : Bool) (Rest : Value F → Type 0)
    (below : Value F → Sum F → Sum F)
    (still : (v : Value F) (acc : Sum F) → Rest v → below v acc ≡ acc) where
  sum_field-still : (fs : Fields F) (acc : Sum F) → AllFields Rest fs → sum_field below fs acc ≡ acc
  sum_field-still end acc h = refl
  sum_field-still (field k v fs) acc (h, hs) = rw (still v acc h) (sum_field-still fs acc hs)

  sum_at_key-still :
      (o : Option (Value F)) (acc : Sum F) → Here Rest o → sum_at_key below o acc ≡ acc
  sum_at_key-still none acc h = refl
  sum_at_key-still (some v) acc h = still v acc h

  unless_last :
      (b : Bool) (v : Value F) (acc : Sum F)
      → (if b then Unit else Rest v)
      → (if b then acc else below v acc) ≡ acc
  unless_last true v acc h = refl
  unless_last false v acc h = still v acc h

  mutual
    unfolding add_value

    add_value-still :
        (v : Value F) (acc : Sum F)
        → Walk seg is_last Rest v
        → add_value seg is_last below v acc ≡ acc
    add_value-still (obj fs) acc h = elim (Bool-cases (beq seg double_star)) [
      | inl e ↦
          let (h1, h2) = rw e at h in
          rw (e, unless_last is_last (obj fs) acc h1) (add_in_fields-still fs acc h2)
      | inr e ↦ elim (Bool-cases (beq seg star)) [
        | inl e' ↦ rw (e, e') (sum_field-still fs acc (rw (e, e') at h))
        | inr e' ↦ rw (e, e') (sum_at_key-still (get_field seg fs) acc (rw (e, e') at h))
      ]
    ]
    add_value-still (arr vs) acc h = add_in_items-still vs acc h
    add_value-still _ acc h = refl

    add_in_items-still :
        (vs : Items F) (acc : Sum F)
        → WalkItems seg is_last Rest vs
        → add_in_items seg is_last below vs acc ≡ acc
    add_in_items-still nil acc h = refl
    add_in_items-still (cons v vs) acc (h, hs) =
        rw (add_value-still v acc h) (add_in_items-still vs acc hs)

    add_in_fields-still :
        (fs : Fields F) (acc : Sum F)
        → WalkFields seg is_last Rest fs
        → add_in_fields seg is_last below fs acc ≡ acc
    add_in_fields-still end acc h = refl
    add_in_fields-still (field k v fs) acc (h, hs) =
        rw (add_value-still v acc h) (add_in_fields-still fs acc hs)

module _ {F : Type 0} (ops : Floats F) where
  -- In a document in which all that redactPath reaches is masked, the sum along the path stays as it was.
  pub Redacted-sum_numeric :
      (path : JsonPath) (v : Value F) (acc : Sum F)
      → Redacted path v
      → sum_numeric ops path v acc ≡ acc
  unfolding sum_numeric
  Redacted-sum_numeric [] v acc h = rw h
  Redacted-sum_numeric (seg ∷ rest) v acc h =
      add_value-still seg (is_empty rest) (Redacted rest) (sum_numeric ops rest)
        (Redacted-sum_numeric rest) v acc h

  -- A sum along a path of at least one segment, after redaction along that path, adds nothing and
  -- reports nothing as found.
  pub sum_numeric-redact_path :
      (path : JsonPath) (v : Value F) (acc : Sum F)
      → path ≢ []
      → sum_numeric ops path (redact_path v path) acc ≡ acc
  sum_numeric-redact_path path v acc ne =
      Redacted-sum_numeric path (redact_path v path) acc (redact_path-Redacted v path ne)
