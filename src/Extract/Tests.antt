-- ===== src/Extract/Tests.antt =====
-- Runs of the extraction.
use optictrace.Prelude.{ℕ, true, false, some, [], ◌∷◌, Text, codes, beq, ◌≡◌, refl}
use optictrace.Json.{
  Value, num, str, arr, obj, nil, cons, end, field, get_field, depth, map_items, update_field,
}
use optictrace.Redact.{placeholder, double_star, redact_path}
use optictrace.Extract.{first_string, sum_numeric}
use optictrace.Extract.Found.{first_string-redact_path}
use optictrace.Samples.{whole_numbers}

abbrev amount : Text
amount = codes "amount"

-- [{"amount": 3}, {"amount": 4}]
abbrev lines : Value ℕ
lines = arr (cons (obj (field amount (num 3) end)) (cons (obj (field amount (num 4) end)) nil))

total : sum_numeric whole_numbers (double_star ∷ amount ∷ []) lines (0, false) ≡ (7, true)
unfolding sum_numeric get_field beq
total = refl

-- [{"id": "a"}]
abbrev names : Value ℕ
names = arr (cons (obj (field (codes "id") (str (codes "a")) end)) nil)

masked_string :
    first_string whole_numbers (codes "id" ∷ []) (redact_path names (codes "id" ∷ []))
    ≡ some placeholder
unfolding first_string redact_path get_field depth map_items beq update_field
masked_string = refl

first_string-redact_path_example : placeholder ≡ placeholder
first_string-redact_path_example =
    first_string-redact_path whole_numbers (codes "id" ∷ []) names placeholder (λ h. cc)
      masked_string
