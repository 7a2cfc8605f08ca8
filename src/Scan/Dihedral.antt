-- ===== src/Scan/Dihedral.antt =====
-- internal/scan/custom.go: the tables of the Verhoeff checksum, and the slips that it finds.
use optictrace.Prelude.{
  ℕ, zero, suc, ◌+◌, ◌%◌, ◌<◌, Bool, true, not, ◌&&◌, ◌||◌, List, [], ◌∷◌, ◌++◌, ltb, ◌==◌, ◌≡◌,
  ◌≢◌, refl, arith, Bool-cases, inl, inr, ap, sym, subst, ==_iff, All,
}
use optictrace.Scan.Verify.{times, permuted, verhoeff_from, verhoeff_p, row, at}

-- A test of all numbers below a bound.
abbrev all_below : ℕ → (ℕ → Bool) → Bool
all_below zero p = true
all_below (suc n) p = p n && all_below n p

below : (n m : ℕ) (p : ℕ → Bool) → all_below n p ≡ true → m < n → p m ≡ true
below zero m p h l = absurd (omega arith)
below (suc n) m p h l = elim (Bool-cases (m == n)) [
  | inl e ↦ subst (λ (j : ℕ). p j ≡ true) (sym ((==_iff m n).0 e)) (ground (arith, h))
  | inr e ↦ below n m p (ground (arith, h)) (ground (arith, e))
]

abbrev all_below2 : ℕ → ℕ → (ℕ → ℕ → Bool) → Bool
all_below2 n m q = all_below n (λ x. all_below m (q x))

below2 :
    (n m : ℕ) (q : ℕ → ℕ → Bool) (x y : ℕ) → all_below2 n m q ≡ true → x < n → y < m → q x y ≡ true
below2 n m q x y h hx hy = below m y (q x) (below n x (λ x. all_below m (q x)) h hx) hy

abbrev all_below3 : ℕ → ℕ → ℕ → (ℕ → ℕ → ℕ → Bool) → Bool
all_below3 n m k q = all_below n (λ x. all_below2 m k (q x))

below3 :
    (n m k : ℕ) (q : ℕ → ℕ → ℕ → Bool) (x y z : ℕ)
    → all_below3 n m k q ≡ true
    → x < n
    → y < m
    → z < k
    → q x y z ≡ true
below3 n m k q x y z h hx hy hz =
    below2 m k (q x) y z (below n x (λ x. all_below2 m k (q x)) h hx) hy hz

abbrev left : ℕ → ℕ → ℕ → Bool
left c x y = x == y || not (times c x == times c y)

abbrev right : ℕ → ℕ → ℕ → Bool
right x a b = a == b || not (times a x == times b x)

abbrev permutes : ℕ → ℕ → ℕ → Bool
permutes i x y = x == y || not (permuted i x == permuted i y)

-- Two neighbours the wrong way round.
abbrev swaps : ℕ → ℕ → ℕ → ℕ → Bool
swaps c i x y =
    x == y
    || not (
        times (times c (permuted i x)) (permuted (i + 1) y)
        == times (times c (permuted i y)) (permuted (i + 1) x))

left_table : all_below3 10 10 10 left ≡ true
unfolding times
left_table = refl

right_table : all_below3 10 10 10 right ≡ true
unfolding times
right_table = refl

times_range : all_below2 10 10 (λ c x. ltb (times c x) 10) ≡ true
unfolding times
times_range = refl

permutes_table : all_below3 8 10 10 permutes ≡ true
unfolding permuted
permutes_table = refl

permuted_range : all_below2 8 10 (λ i x. ltb (permuted i x) 10) ≡ true
unfolding permuted
permuted_range = refl

swaps_table : all_below 10 (λ c. all_below3 8 10 10 (swaps c)) ≡ true
unfolding times permuted
swaps_table = refl

or_apart : (a b m n : ℕ) → (a == b || not (m == n)) ≡ true → a ≢ b → m ≢ n
or_apart a b m n h ne = ground arith

times-left : (c x y : ℕ) → c < 10 → x < 10 → y < 10 → x ≢ y → times c x ≢ times c y
times-left c x y hc hx hy ne =
    or_apart x y (times c x) (times c y) (below3 10 10 10 left c x y left_table hc hx hy) ne

times-right : (a b x : ℕ) → a < 10 → b < 10 → x < 10 → a ≢ b → times a x ≢ times b x
times-right a b x ha hb hx ne =
    or_apart a b (times a x) (times b x) (below3 10 10 10 right x a b right_table hx ha hb) ne

times-lt : (c x : ℕ) → c < 10 → x < 10 → times c x < 10
times-lt c x hc hx =
    let t = below2 10 10 (λ c x. ltb (times c x) 10) c x times_range hc hx in ground arith

permuted-mod : (i x : ℕ) → permuted i x ≡ permuted (i % 8) x
unfolding permuted
permuted-mod i x = ap (λ (j : ℕ). at (row verhoeff_p j) x) (omega arith)

permuted-injective : (i x y : ℕ) → x < 10 → y < 10 → x ≢ y → permuted i x ≢ permuted i y
permuted-injective i x y hx hy ne =
    let t = below3 8 10 10 permutes (i % 8) x y permutes_table (omega arith) hx hy in
    let apart = or_apart x y (permuted (i % 8) x) (permuted (i % 8) y) t ne in
    ground (arith, permuted-mod i x, permuted-mod i y)

permuted-lt : (i x : ℕ) → x < 10 → permuted i x < 10
permuted-lt i x hx =
    let t = below2 8 10 (λ i x. ltb (permuted i x) 10) (i % 8) x permuted_range (omega arith) hx in
    ground (arith, permuted-mod i x)

-- Two states stay apart, whatever digits follow.
verhoeff_from-injective :
    (i a b : ℕ) (ds : List ℕ)
    → a < 10
    → b < 10
    → a ≢ b
    → All (λ d. d < 10) ds
    → verhoeff_from i a ds ≢ verhoeff_from i b ds
unfolding verhoeff_from
verhoeff_from-injective i a b [] ha hb ne h = ne
verhoeff_from-injective i a b (d ∷ ds) ha hb ne h =
    let p = permuted-lt i d h.0 in
    verhoeff_from-injective (i + 1) (times a (permuted i d)) (times b (permuted i d)) ds
      (times-lt a _ ha p) (times-lt b _ hb p) (times-right a b _ ha hb p ne) h.1

pub verhoeff_from-slip :
    (i c : ℕ) (xs ys : List ℕ) (a b : ℕ)
    → c < 10
    → a < 10
    → b < 10
    → a ≢ b
    → All (λ d. d < 10) xs
    → All (λ d. d < 10) ys
    → verhoeff_from i c (xs ++ a ∷ ys) ≢ verhoeff_from i c (xs ++ b ∷ ys)
unfolding verhoeff_from
verhoeff_from-slip i c [] ys a b hc ha hb ne hx hy =
    let pa = permuted-lt i a ha in
    let pb = permuted-lt i b hb in
    verhoeff_from-injective (i + 1) _ _ ys (times-lt c _ hc pa) (times-lt c _ hc pb)
      (times-left c _ _ hc pa pb (permuted-injective i a b ha hb ne)) hy
verhoeff_from-slip i c (x ∷ xs) ys a b hc ha hb ne hx hy =
    verhoeff_from-slip (i + 1) (times c (permuted i x)) xs ys a b
      (times-lt c _ hc (permuted-lt i x hx.0)) ha hb ne hx.1 hy

-- The positions enter by their remainder, so that one table serves all neighbours.
next : (i x : ℕ) → permuted (i + 1) x ≡ permuted (i % 8 + 1) x
unfolding permuted
next i x = ap (λ (j : ℕ). at (row verhoeff_p j) x) (omega arith)

swap_apart :
    (c i x y : ℕ)
    → c < 10
    → x < 10
    → y < 10
    → x ≢ y
    → times (times c (permuted i x)) (permuted (i + 1) y)
      ≢ times (times c (permuted i y)) (permuted (i + 1) x)
swap_apart c i x y hc hx hy ne =
    let t =
      below3 8 10 10 (swaps c) (i % 8) x y
        (below 10 c (λ c. all_below3 8 10 10 (swaps c)) swaps_table hc) (omega arith) hx hy in
    let apart = or_apart x y _ _ t ne in
    rw (permuted-mod i x, permuted-mod i y, next i x, next i y) apart

pub verhoeff_from-swap :
    (i c : ℕ) (xs ys : List ℕ) (a b : ℕ)
    → c < 10
    → a < 10
    → b < 10
    → a ≢ b
    → All (λ d. d < 10) xs
    → All (λ d. d < 10) ys
    → verhoeff_from i c (xs ++ a ∷ b ∷ ys) ≢ verhoeff_from i c (xs ++ b ∷ a ∷ ys)
unfolding verhoeff_from
verhoeff_from-swap i c [] ys a b hc ha hb ne hx hy =
    let lt = λ (x y : ℕ) (hx : x < 10) (hy : y < 10).
      times-lt (times c (permuted i x)) (permuted (i + 1) y) (times-lt c _ hc (permuted-lt i x hx))
        (permuted-lt (i + 1) y hy) in
    verhoeff_from-injective (i + 1 + 1) _ _ ys (lt a b ha hb) (lt b a hb ha)
      (swap_apart c i a b hc ha hb ne) hy
verhoeff_from-swap i c (x ∷ xs) ys a b hc ha hb ne hx hy =
    verhoeff_from-swap (i + 1) (times c (permuted i x)) xs ys a b
      (times-lt c _ hc (permuted-lt i x hx.0)) ha hb ne hx.1 hy
