-- ===== src/Scan/Masked.antt =====
-- internal/scan/detect.go, Mask: what a finding shows of the value that it found.
use optictrace.Prelude.{
  ℕ, zero, suc, ◌-◌, ◌≤◌, Bool, true, false, [], ◌∷◌, Text, length, take, drop, leb, ltb,
  if◌then◌else◌, trim_space, ◌≡◌, refl, arith, Bool-cases, inl, inr, ap, ◌∙◌, sym,
}
use optictrace.Scan.{mask, mask_long, first_bytes, bullets}

-- What a mask depends on: the first two and the last two bytes, and the length up to 40.
pub record LooksLike (v w : Text) : Type 0 where
  pub as_long : length v ≡ length w
  pub same_start : take 2 v ≡ take 2 w
  pub same_end : drop (length v - 2) v ≡ drop (length w - 2) w

mask_long-LooksLike : (v w : Text) → LooksLike v w → mask_long v ≡ mask_long w
mask_long-LooksLike v w h = cc (h.as_long, h.same_start, h.same_end)

length-take : (n : ℕ) (v : Text) → n ≤ length v → length (take n v) ≡ n
length-take zero v h = refl
length-take (suc n) [] h = omega arith
length-take (suc n) (c ∷ v) h = omega (arith, length-take n v)

short-first_bytes : (v : Text) → leb (length (first_bytes v)) 6 ≡ leb (length v) 6
short-first_bytes v = elim (Bool-cases (ltb 40 (length v))) [
  | inl e ↦ rw e (ground (arith, e, length-take 40 v))
  | inr e ↦ rw e refl
]

short-length : (v : Text) → leb (length v) 6 ≡ true → length (first_bytes v) ≡ length v
short-length v h = ground (arith, h)

abbrev masked : Text → Text
masked t = if leb (length t) 6 then bullets (length t) else mask_long (first_bytes t)

if_both :
    (a b : Bool) (x y x' y' : Text)
    → a ≡ b
    → (a ≡ true → x ≡ x')
    → (a ≡ false → y ≡ y')
    → (if a then x else y) ≡ (if b then x' else y')
if_both true true x y x' y' e p q = p refl
if_both false false x y x' y' e p q = q refl
if_both true false x y x' y' e p q = cc
if_both false true x y x' y' e p q = cc

masked-LooksLike : (t u : Text) → LooksLike (first_bytes t) (first_bytes u) → masked t ≡ masked u
masked-LooksLike t u h =
    let same : leb (length t) 6 ≡ leb (length u) 6 =
      sym (short-first_bytes t) ∙ ap (λ (n : ℕ). leb n 6) h.as_long ∙ short-first_bytes u in
    if_both (leb (length t) 6) (leb (length u) 6) _ _ _ _ same
      (λ e. ap bullets (sym (short-length t e) ∙ h.as_long ∙ short-length u (sym same ∙ e)))
      (λ e. mask_long-LooksLike (first_bytes t) (first_bytes u) h)

-- What a finding shows of a value depends only on the first two bytes, the last two and the length
-- of the trimmed value cut to 40 bytes: values that agree in these have the same mask.
pub mask-LooksLike :
    (v w : Text)
    → LooksLike (first_bytes (trim_space v)) (first_bytes (trim_space w))
    → mask v ≡ mask w
unfolding mask
mask-LooksLike v w h = masked-LooksLike (trim_space v) (trim_space w) h
