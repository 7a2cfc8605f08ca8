-- ===== src/Redact/Tests.antt =====
-- Runs of the redaction.
use optictrace.Prelude.{ℕ, false, [], ◌∷◌, Text, codes, beq, ◌≡◌, refl}
use optictrace.Json.{
  Value, null, num, str, arr, obj, nil, cons, end, field, depth, map_fields, map_items,
  update_field, get_field,
}
use optictrace.Redact.{placeholder, star, double_star, redact_path}
use optictrace.Redact.Addressed.{
  IsMaskedAt, ends_deep, Addresses, one_level, its_first, in_item, first, no_level, at_key, here,
}
use optictrace.Redact.Complete.{redact_path-IsMaskedAt}
use optictrace.Redact.Masks.{Masks, redact_path-Masks}
use optictrace.Redact.Trailing.{redact_path_trailing}

abbrev card : Text
card = codes "card"

-- {"items": [{"card": "4111", "n": 2}, null], "card": "5500"}
abbrev order : Value ℕ
order = obj (
    field (codes "items")
      (arr (
        cons (obj (field card (str (codes "4111")) (field (codes "n") (num 2) end)))
          (cons null nil)))
      (field card (str (codes "5500")) end))

abbrev masked_order : Value ℕ
masked_order = obj (
    field (codes "items")
      (arr
        (cons (obj (field card (str placeholder) (field (codes "n") (num 2) end))) (cons null nil)))
      (field card (str placeholder) end))

every_card : redact_path order (double_star ∷ card ∷ []) ≡ masked_order
unfolding redact_path depth beq map_fields update_field map_items
every_card = refl

shallow_path : ends_deep (double_star ∷ card ∷ []) ≡ false
unfolding ends_deep beq
shallow_path = refl

-- The card of the first item, through the array and one level below the document.
reaches_item : Addresses (double_star ∷ card ∷ []) order (str (codes "4111"))
unfolding get_field beq
reaches_item = one_level its_first (in_item first (no_level (at_key refl refl refl here)))

redact_path-IsMaskedAt_example :
    IsMaskedAt (double_star ∷ card ∷ []) (redact_path order (double_star ∷ card ∷ []))
redact_path-IsMaskedAt_example =
    redact_path-IsMaskedAt order (double_star ∷ card ∷ []) (λ h. cc) shallow_path

redact_path-Masks_example : Masks order (redact_path order (star ∷ card ∷ []))
redact_path-Masks_example = redact_path-Masks order (star ∷ card ∷ [])

redact_path_trailing_example : redact_path order (card ∷ double_star ∷ []) ≡ order
redact_path_trailing_example = redact_path_trailing order (card ∷ [])
