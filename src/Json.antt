-- ===== src/Json.antt =====
-- The documents that encoding/json decodes into `any`: map[string]any, []any, string, float64, bool
-- and nil. A float64 is a parameter `F`; the entries of an object stand in the order in which a
-- `range` over the map meets them.
use optictrace.Prelude.{ℕ, suc, max, Bool, Option, none, some, Text, beq, if◌then◌else◌}

mutual
  pub data Value (F : Type 0) : Type 0 where
    null : Value F
    bool : Bool → Value F
    num : F → Value F
    str : Text → Value F
    arr : Items F → Value F
    obj : Fields F → Value F

  pub data Items (F : Type 0) : Type 0 where
    nil : Items F
    cons : Value F → Items F → Items F

  pub data Fields (F : Type 0) : Type 0 where
    end : Fields F
    field : Text → Value F → Fields F → Fields F

module _ {F : Type 0} where
  -- `for i, child := range v { v[i] = f(child) }`
  unfoldable pub map_items : (Value F → Value F) → Items F → Items F
  map_items f nil = nil
  map_items f (cons v vs) = cons (f v) (map_items f vs)

  -- `for key, child := range v { v[key] = f(child) }`
  unfoldable pub map_fields : (Value F → Value F) → Fields F → Fields F
  map_fields f end = end
  map_fields f (field k v fs) = field k (f v) (map_fields f fs)

  -- `if child, ok := v[seg]; ok { v[seg] = f(child) }`
  unfoldable pub update_field : Text → (Value F → Value F) → Fields F → Fields F
  update_field seg f end = end
  update_field seg f (field k v fs) =
      if beq k seg then field k (f v) fs else field k v (update_field seg f fs)

  -- `child, ok := v[seg]`
  unfoldable pub get_field : Text → Fields F → Option (Value F)
  get_field seg end = none
  get_field seg (field k v fs) = if beq k seg then some v else get_field seg fs

  abbrev pub AllItems {ℓ} : (Value F → Type ℓ) → Items F → Type ℓ
  AllItems P nil = Unit
  AllItems P (cons v vs) = P v × AllItems P vs

  abbrev pub AllFields {ℓ} : (Value F → Type ℓ) → Fields F → Type ℓ
  AllFields P end = Unit
  AllFields P (field k v fs) = P v × AllFields P fs

module _ {F : Type 0} where
  unfoldable mutual
    pub depth : Value F → ℕ
    depth null = 1
    depth (bool b) = 1
    depth (num n) = 1
    depth (str s) = 1
    depth (arr vs) = suc (depth_items vs)
    depth (obj fs) = suc (depth_fields fs)

    pub depth_items : Items F → ℕ
    depth_items nil = 0
    depth_items (cons v vs) = max (depth v) (depth_items vs)

    pub depth_fields : Fields F → ℕ
    depth_fields end = 0
    depth_fields (field k v fs) = max (depth v) (depth_fields fs)
