-- ===== src/Redact/Reached.antt =====
-- internal/engine/redact.go: the positions that redactPath reaches, with no order of search. A last `**`
-- reaches nothing, although by the comment on redactPath it addresses every level.
use optictrace.Prelude.{◌≡◌, Bool, Option, none, some, [], ◌∷◌, Text, beq, is_empty, if◌then◌else◌}
use optictrace.Json.{
  Value, Items, Fields, str, arr, obj, nil, cons, end, field, AllFields, get_field,
}
use optictrace.Redact.{JsonPath, placeholder, star, double_star}

abbrev pub Here {ℓ} : {A : Type 0} → (A → Type ℓ) → Option A → Type ℓ
Here P none = Unit
Here P (some a) = P a

module _ {F : Type 0} (seg : Text) (is_last : Bool) (Rest : Value F → Type 0) where
  abbrev mutual
    -- `Rest` is what the remaining path says. An array is transparent.
    pub Walk : Value F → Type 0
    Walk (obj fs) =
        if beq seg double_star
        then (if is_last then Unit else Rest (obj fs)) × WalkFields fs
        else if beq seg star
        then AllFields Rest fs
        else Here Rest (get_field seg fs)
    Walk (arr vs) = WalkItems vs
    Walk _ = Unit

    pub WalkItems : Items F → Type 0
    WalkItems nil = Unit
    WalkItems (cons v vs) = Walk v × WalkItems vs

    pub WalkFields : Fields F → Type 0
    WalkFields end = Unit
    WalkFields (field k v fs) = Walk v × WalkFields fs

module _ {F : Type 0} where
  -- `P` holds of every value that redactPath reaches.
  abbrev pub Reached : (Value F → Type 0) → JsonPath → Value F → Type 0
  Reached P [] v = P v
  Reached P (seg ∷ rest) v = Walk seg (is_empty rest) (Reached P rest) v

  abbrev pub IsMasked : Value F → Type 0
  IsMasked v = v ≡ str placeholder

  -- Every value reached has become the placeholder.
  abbrev pub Redacted : JsonPath → Value F → Type 0
  Redacted = Reached IsMasked
