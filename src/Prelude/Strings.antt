-- ===== src/Prelude/Strings.antt =====
-- Go strings as byte lists, with what the program takes from `strings`, and maps with string keys
-- as association lists.
use Prim.Native.Nat.{ℕ, ◌+◌, ◌-◌}
use Prim.Native.Char.{code}
use Prim.Native.String.{String}
use mathlib.Core.Path.{◌≡◌, refl, ap, sym, ◌∙◌}
use mathlib.Core.Logic.{◌↔◌}
use mathlib.Core.Bool.{Bool, true, false, ◌&&◌, ◌||◌}
use mathlib.Core.Option.{Option, none, some}
use mathlib.Core.List.{List, [], ◌∷◌, ◌++◌, map}
use native.Mathlib.Omega.{arith}
use optictrace.Prelude.Tests.{◌==◌, leb, if◌then◌else◌}
use optictrace.Prelude.Lists.{any, drop, length, is_empty}

abbrev pub Text : Type 0
Text = List ℕ

-- The bytes of an ASCII literal.
abbrev pub codes : String → Text
codes String.[] = []
codes (String.◌∷◌ c s) = code c ∷ codes s

unfoldable pub beq : Text → Text → Bool
beq [] [] = true
beq (x ∷ xs) (y ∷ ys) = x == y && beq xs ys
beq _ _ = false

pub beq_iff : (a b : Text) → (beq a b ≡ true) ↔ (a ≡ b)
unfolding beq
beq_iff [] [] = ground arith
beq_iff [] (y ∷ ys) = ground arith
beq_iff (x ∷ xs) [] = ground arith
beq_iff (x ∷ xs) (y ∷ ys) = ground (arith, beq_iff xs ys)

pub beq_refl : (a : Text) → beq a a ≡ true
beq_refl a = (beq_iff a a).1 refl

unfoldable pub contains : List Text → Text → Bool
unfolding beq
contains xs k = any (beq k) xs

pub contains-append :
    (xs ys : List Text) (k : Text) → contains (xs ++ ys) k ≡ (contains xs k || contains ys k)
unfolding contains
contains-append [] ys k = refl
contains-append (x ∷ xs) ys k = ground (arith, contains-append xs ys k)

module _ {ℓ} {V : Type ℓ} where
  unfoldable pub lookup : Text → List (Text × V) → Option V
  unfolding beq
  lookup k [] = none
  lookup k ((j, v) ∷ m) = if beq j k then some v else lookup k m

  -- A write to a map: the old entry is replaced, a new one goes to the end.
  unfoldable pub insert : Text → V → List (Text × V) → List (Text × V)
  unfolding beq
  insert k v [] = (k, v) ∷ []
  insert k v ((j, w) ∷ m) = if beq j k then (j, v) ∷ m else (j, w) ∷ insert k v m

  pub lookup-insert :
      (k j : Text) (v : V) (m : List (Text × V))
      → lookup j (insert k v m) ≡ (if beq k j then some v else lookup j m)
  unfolding lookup insert
  lookup-insert k j v [] = refl
  lookup-insert k j v ((i, w) ∷ m) =
      ground (arith, beq_iff k j, beq_iff i k, beq_iff i j, lookup-insert k j v m)

-- The order of sort.Strings.
unfoldable pub text_le : Text → Text → Bool
text_le [] t = true
text_le (c ∷ s) [] = false
text_le (c ∷ s) (d ∷ t) = if c == d then text_le s t else leb c d

-- strings.HasPrefix
unfoldable pub starts_with : Text → Text → Bool
starts_with [] s = true
starts_with (p ∷ ps) [] = false
starts_with (p ∷ ps) (c ∷ s) = p == c && starts_with ps s

-- strings.TrimPrefix(s, p)
unfoldable pub trim_prefix : Text → Text → Text
unfolding starts_with
trim_prefix p s = if starts_with p s then drop (length p) s else s

-- strings.Split(s, sep) at a separator of one byte: never empty.
abbrev pub extend_first : ℕ → List Text → List Text
extend_first c [] = []
extend_first c (seg ∷ segs) = (c ∷ seg) ∷ segs

unfoldable pub split_by : ℕ → Text → List Text
split_by sep [] = [] ∷ []
split_by sep (c ∷ s) =
    let segs = split_by sep s in if c == sep then [] ∷ segs else extend_first c segs

-- strings.Join(segs, sep)
unfoldable pub join_by : ℕ → List Text → Text
join_by sep [] = []
join_by sep (s ∷ []) = s
join_by sep (s ∷ t ∷ segs) = s ++ sep ∷ join_by sep (t ∷ segs)

-- strings.TrimLeft(s, cutset), the cutset as a test.
unfoldable pub trim_left : (ℕ → Bool) → Text → Text
trim_left cut [] = []
trim_left cut (c ∷ s) = if cut c then trim_left cut s else c ∷ s

-- strings.TrimRight.
unfoldable pub trim_right : (ℕ → Bool) → Text → Text
trim_right cut [] = []
trim_right cut (c ∷ s) = let t = trim_right cut s in if is_empty t && cut c then [] else c ∷ t

-- strings.Trim.
unfoldable pub trim : (ℕ → Bool) → Text → Text
unfolding trim_left trim_right
trim cut s = trim_right cut (trim_left cut s)

-- strings.ToLower on ASCII bytes.
unfoldable pub to_lower : Text → Text
to_lower = map (λ c. if leb b'A' c && leb c b'Z' then c + 32 else c)

-- strings.ToUpper on ASCII bytes.
unfoldable pub to_upper : Text → Text
to_upper = map (λ c. if leb b'a' c && leb c b'z' then c - 32 else c)

-- strings.TrimSpace on ASCII bytes.
abbrev pub is_space : ℕ → Bool
is_space c = c == b' ' || (leb 9 c && leb c 13)

unfoldable pub trim_space : Text → Text
unfolding trim
trim_space s = trim is_space s

trim_right-clean :
    (cut : ℕ → Bool) (t : Text) (z : ℕ) → cut z ≡ false → trim_right cut (t ++ z ∷ []) ≡ t ++ z ∷ []
unfolding trim_right
trim_right-clean cut [] z h = rw h
trim_right-clean cut (c ∷ []) z h = rw (trim_right-clean cut [] z h)
trim_right-clean cut (c ∷ d ∷ t) z h = rw (trim_right-clean cut (d ∷ t) z h)

-- Trimming changes nothing in a text that begins and ends with bytes that stay.
pub trim-clean :
    (cut : ℕ → Bool) (a z : ℕ) (s t : Text)
    → cut a ≡ false
    → cut z ≡ false
    → a ∷ s ≡ t ++ z ∷ []
    → trim cut (a ∷ s) ≡ a ∷ s
unfolding trim
trim-clean cut a z s t ha hz e = rw ha (ap (trim_right cut) e ∙ trim_right-clean cut t z hz ∙ sym e)
