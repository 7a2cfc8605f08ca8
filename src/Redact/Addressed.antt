-- ===== src/Redact/Addressed.antt =====
-- internal/engine/redact.go: the values that a dotted path addresses, as the comment on redactPath has
-- it: `*` stands for every field, `**` for zero or more levels, and arrays are transparent.
use optictrace.Prelude.{
  ◌≡◌, refl, List, All, Bool, false, some, [], ◌∷◌, Text, beq, is_empty, if◌then◌else◌, arith,
  Bool-cases, inl, inr,
}
use optictrace.Json.{
  Value, Items, Fields, null, bool, num, str, arr, obj, nil, cons, field, AllFields, get_field,
}
use optictrace.Redact.{JsonPath, placeholder, star, double_star}
use optictrace.Redact.Reached.{Walk, WalkItems, WalkFields, Redacted}

pub data Item {F : Type 0} (v : Value F) : Items F → Type 0 where
  first : {vs : Items F} → Item v (cons v vs)
  later : {w : Value F} {vs : Items F} → Item v vs → Item v (cons w vs)

pub data FieldValue {F : Type 0} (v : Value F) : Fields F → Type 0 where
  its_first : {k : Text} {fs : Fields F} → FieldValue v (field k v fs)
  its_later :
      {k : Text} {w : Value F} {fs : Fields F} → FieldValue v fs → FieldValue v (field k w fs)

-- `Addresses path v w`: the path, from `v` on, addresses `w`.
pub data Addresses {F : Type 0} : JsonPath → Value F → Value F → Type 0 where
  here : {v : Value F} → Addresses [] v v
  in_item :
      {seg : Text} {rest : JsonPath} {vs : Items F} {v w : Value F}
      → Item v vs
      → Addresses (seg ∷ rest) v w
      → Addresses (seg ∷ rest) (arr vs) w
  at_key :
      {seg : Text} {rest : JsonPath} {fs : Fields F} {v w : Value F}
      → beq seg double_star ≡ false
      → beq seg star ≡ false
      → get_field seg fs ≡ some v
      → Addresses rest v w
      → Addresses (seg ∷ rest) (obj fs) w
  at_star :
      {rest : JsonPath} {fs : Fields F} {v w : Value F}
      → FieldValue v fs
      → Addresses rest v w
      → Addresses (star ∷ rest) (obj fs) w
  no_level :
      {rest : JsonPath} {v w : Value F} → Addresses rest v w → Addresses (double_star ∷ rest) v w
  one_level :
      {rest : JsonPath} {fs : Fields F} {v w : Value F}
      → FieldValue v fs
      → Addresses (double_star ∷ rest) v w
      → Addresses (double_star ∷ rest) (obj fs) w

-- The last segment is `**`.
unfoldable pub ends_deep : JsonPath → Bool
ends_deep [] = false
ends_deep (seg ∷ rest) = if is_empty rest then beq seg double_star else ends_deep rest

-- The paths that do not end in `**`.
unfoldable pub shallow : List JsonPath → List JsonPath
unfolding ends_deep
shallow [] = []
shallow (path ∷ paths) = if ends_deep path then shallow paths else path ∷ shallow paths

-- Every value that the path addresses is the placeholder.
abbrev pub IsMaskedAt : {F : Type 0} → JsonPath → Value F → Type 0
IsMaskedAt {F} path doc = (w : Value F) → Addresses path doc w → w ≡ str placeholder

ends_deep-rest :
    (seg : Text) (rest : JsonPath) → ends_deep (seg ∷ rest) ≡ false → ends_deep rest ≡ false
unfolding ends_deep
ends_deep-rest seg [] e = refl
ends_deep-rest seg (s ∷ rest) e = e

module _ {F : Type 0} (seg : Text) (is_last : Bool) (Rest : Value F → Type 0) where
  Item-Walk :
      {v : Value F} {vs : Items F}
      → Item v vs
      → WalkItems seg is_last Rest vs
      → Walk seg is_last Rest v
  Item-Walk first (h, hs) = h
  Item-Walk (later m) (h, hs) = Item-Walk m hs

  FieldValue-Walk :
      {v : Value F} {fs : Fields F}
      → FieldValue v fs
      → WalkFields seg is_last Rest fs
      → Walk seg is_last Rest v
  FieldValue-Walk its_first (h, hs) = h
  FieldValue-Walk (its_later m) (h, hs) = FieldValue-Walk m hs

module _ {F : Type 0} where
  FieldValue-All :
      (P : Value F → Type 0) {v : Value F} {fs : Fields F} → FieldValue v fs → AllFields P fs → P v
  FieldValue-All P its_first (h, hs) = h
  FieldValue-All P (its_later m) (h, hs) = FieldValue-All P m hs

  -- What stands below `**` in an object, where the path goes on.
  mutual
    unfolding beq

    same_level :
        (seg : Text) (rest : JsonPath) (v : Value F)
        → Redacted (double_star ∷ seg ∷ rest) v
        → Redacted (seg ∷ rest) v
    same_level seg rest (obj fs) (h, hs) = h
    same_level seg rest (arr vs) h = same_level_items seg rest vs h
    same_level seg rest null h = tt
    same_level seg rest (bool b) h = tt
    same_level seg rest (num n) h = tt
    same_level seg rest (str s) h = tt

    same_level_items :
        (seg : Text) (rest : JsonPath) (vs : Items F)
        → WalkItems double_star false (Redacted (seg ∷ rest)) vs
        → WalkItems seg (is_empty rest) (Redacted rest) vs
    same_level_items seg rest nil h = tt
    same_level_items seg rest (cons v vs) (h, hs) =
        (same_level seg rest v h, same_level_items seg rest vs hs)

  below_star :
      (rest : JsonPath) (v : Value F)
      → ends_deep (double_star ∷ rest) ≡ false
      → Redacted (double_star ∷ rest) v
      → Redacted rest v
  unfolding ends_deep beq
  below_star [] v e r = absurd (ground arith)
  below_star (s ∷ rest) v e r = same_level s rest v r

  -- Of a path that does not end in `**`, redactPath reaches every value that it addresses.
  pub Redacted-IsMaskedAt :
      {path : JsonPath} {v w : Value F}
      → Addresses path v w
      → ends_deep path ≡ false
      → Redacted path v
      → w ≡ str placeholder
  unfolding beq
  Redacted-IsMaskedAt here e r = r
  Redacted-IsMaskedAt (in_item {seg = seg} {rest = rest} m a) e r =
      Redacted-IsMaskedAt a e (Item-Walk seg (is_empty rest) (Redacted rest) m r)
  Redacted-IsMaskedAt (at_key {seg = seg} {rest = rest} d s g a) e r =
      Redacted-IsMaskedAt a (ends_deep-rest seg rest e) (rw (d, s, g) at r)
  Redacted-IsMaskedAt (at_star {rest = rest} m a) e r =
      Redacted-IsMaskedAt a (ends_deep-rest star rest e) (FieldValue-All (Redacted rest) m r)
  Redacted-IsMaskedAt (no_level {rest = rest} {v = v} a) e r =
      Redacted-IsMaskedAt a (ends_deep-rest double_star rest e) (below_star rest v e r)
  Redacted-IsMaskedAt (one_level {rest = rest} m a) e (r, rs) =
      Redacted-IsMaskedAt a e (FieldValue-Walk double_star (is_empty rest) (Redacted rest) m rs)

  pub shallow-IsMaskedAt :
      (doc : Value F) (paths : List JsonPath)
      → All (λ path. Redacted path doc) paths
      → All (λ path. IsMaskedAt path doc) (shallow paths)
  unfolding shallow
  shallow-IsMaskedAt doc [] h = tt
  shallow-IsMaskedAt doc (path ∷ paths) (h, hs) = elim (Bool-cases (ends_deep path)) [
    | inl e ↦ rw e (shallow-IsMaskedAt doc paths hs)
    | inr e ↦ rw e ((λ w a. Redacted-IsMaskedAt a e h), shallow-IsMaskedAt doc paths hs)
  ]
