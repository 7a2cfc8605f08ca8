-- ===== src/Prelude/Sorts.antt =====
-- sort.Strings, as an insertion sort, and strconv.Itoa.
use Prim.Native.Nat.{ℕ, zero, suc, ◌+◌, ◌/◌, ◌%◌}
use mathlib.Core.Path.{◌≡◌, refl, ◌∙◌, ap}
use mathlib.Core.Bool.{Bool, ◌||◌}
use mathlib.Core.List.{List, [], ◌∷◌, ◌++◌}
use native.Mathlib.Omega.{arith}
use optictrace.Prelude.Tests.{ltb, if◌then◌else◌}
use optictrace.Prelude.Lists.{length}
use optictrace.Prelude.Strings.{Text, beq, contains, text_le}

abbrev pub insert_text : Text → List Text → List Text
insert_text s [] = s ∷ []
insert_text s (t ∷ ts) = if text_le s t then s ∷ t ∷ ts else t ∷ insert_text s ts

unfoldable pub sort_texts : List Text → List Text
unfolding text_le
sort_texts [] = []
sort_texts (s ∷ ts) = insert_text s (sort_texts ts)

pub length-insert_text : (s : Text) (ts : List Text) → length (insert_text s ts) ≡ length ts + 1
length-insert_text s [] = refl
length-insert_text s (t ∷ ts) = ground (arith, length-insert_text s ts)

pub length-sort_texts : (ts : List Text) → length (sort_texts ts) ≡ length ts
unfolding sort_texts
length-sort_texts [] = refl
length-sort_texts (s ∷ ts) =
    omega (arith, length-insert_text s (sort_texts ts), length-sort_texts ts)

contains-insert_text :
    (s : Text) (ts : List Text) (k : Text)
    → contains (insert_text s ts) k ≡ (beq k s || contains ts k)
unfolding contains
contains-insert_text s [] k = refl
contains-insert_text s (t ∷ ts) k = ground (arith, contains-insert_text s ts k)

pub contains-sort_texts : (ts : List Text) (k : Text) → contains (sort_texts ts) k ≡ contains ts k
unfolding sort_texts contains
contains-sort_texts [] k = refl
contains-sort_texts (s ∷ ts) k =
    contains-insert_text s (sort_texts ts) k
    ∙ ap (λ (b : Bool). beq k s || b) (contains-sort_texts ts k)

-- strconv.Itoa of a number that is not negative.
abbrev pub itoa_fuel : ℕ → ℕ → Text
itoa_fuel zero n = []
itoa_fuel (suc fuel) n =
    let rest = itoa_fuel fuel (n / 10) in (if ltb n 10 then [] else rest) ++ (b'0' + n % 10) ∷ []

unfoldable pub itoa : ℕ → Text
itoa n = itoa_fuel (suc n) n
