-- ===== src/Spec.antt =====
-- internal/spec/model.go: a specification document, and the schemas in it.
mod Tests
pub mod Merge
pub mod Paths
pub mod Infer
pub mod Fields
pub mod Uses
pub mod Check
pub mod Grouped
pub mod Described
pub mod Mixed
pub mod Known
pub mod Missing
pub mod Covered
use optictrace.Prelude.{
  ℕ, Bool, true, false, Option, none, some, List, Text, beq, is_empty, if◌then◌else◌,
}

-- What `example` holds: int64, float64 or string in an inferred document.
pub data Example (F : Type 0) : Type 0 where
  no_example : Example F
  text_example : Text → Example F
  integer_example number_example : F → Example F

-- The fields of a Schema that are no schemas themselves.
pub record Facts (F : Type 0) : Type 0 where
  pub ref : Text
  pub type : Text
  pub required : List Text
  pub nullable : Bool
  pub example : Example F

-- A Schema; a pointer to one; the `properties` map, which may be nil.
mutual
  pub data Schema (F : Type 0) : Type 0 where
    schema : Facts F → Props F → Pointer F → Schema F

  pub data Pointer (F : Type 0) : Type 0 where
    nil : Pointer F
    to : Schema F → Pointer F

  pub data Props (F : Type 0) : Type 0 where
    nil_map empty_map : Props F
    prop : Text → Schema F → Props F → Props F

pub record Param : Type 0 where
  pub name : Text
  pub place : Text
  pub required : Bool
  pub type : Text

-- `requestBody` and `responses`, by the schema of their application/json content.
pub record Operation (F : Type 0) : Type 0 where
  pub summary : Text
  pub operation_id : Text
  pub parameters : List Param
  pub request_body : Option (Pointer F)
  pub responses : List (Text × Option (Pointer F))

-- Spec, with `components.schemas` as far as there are any.
pub record Document (F : Type 0) : Type 0 where
  pub title : Text
  pub paths : List (Text × List (Text × Operation F))
  pub components : Option (List (Text × Schema F))

module _ {F : Type 0} where
  abbrev pub facts_of : Schema F → Facts F
  facts_of (schema facts props items) = facts

  abbrev pub props_of : Schema F → Props F
  props_of (schema facts props items) = props

  abbrev pub items_of : Schema F → Pointer F
  items_of (schema facts props items) = items

  unfoldable pub get_prop : Text → Props F → Pointer F
  unfolding beq
  get_prop k nil_map = nil
  get_prop k empty_map = nil
  get_prop k (prop j sc props) = if beq j k then to sc else get_prop k props

  -- `m[k] = sc` on a map that is not nil.
  unfoldable pub put_prop : Text → Schema F → Props F → Props F
  unfolding beq
  put_prop k sc nil_map = prop k sc empty_map
  put_prop k sc empty_map = prop k sc empty_map
  put_prop k sc (prop j old props) =
      if beq j k then prop j sc props else prop j old (put_prop k sc props)

  abbrev pub is_nil_map : Props F → Bool
  is_nil_map nil_map = true
  is_nil_map _ = false
