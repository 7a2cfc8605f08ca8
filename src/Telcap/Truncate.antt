-- ===== src/Telcap/Truncate.antt =====
-- internal/telcap/telcap.go, TruncateUTF8.
use optictrace.Prelude.{
  ℕ, zero, suc, ◌≤◌, ◌<◌, ◌≡◌, ◌⊎◌, inl, inr, true, [], ◌∷◌, ◌++◌, append-nil, Text, length, take,
  drop, arith, refl, Bool-cases,
}
use native.Mathlib.Decide.{dec_le}
use optictrace.Telcap.{rune_start, byte_at, cut_back, truncate_utf8}

cut_back-le : (s : Text) (cut : ℕ) → cut_back s cut ≤ cut
unfolding cut_back
cut_back-le s zero = omega arith
cut_back-le s (suc cut) = ground (arith, cut_back-le s cut)

cut_back_start :
    (s : Text) (cut : ℕ) → (cut_back s cut ≡ 0) ⊎ (rune_start (byte_at s (cut_back s cut)) ≡ true)
unfolding cut_back
cut_back_start s zero = inl refl
cut_back_start s (suc cut) = elim (Bool-cases (rune_start (byte_at s (suc cut)))) [
  | inl e ↦ rw e (inr e)
  | inr e ↦ rw e (cut_back_start s cut)
]

length-take : (n : ℕ) (s : Text) → n ≤ length s → length (take n s) ≡ n
length-take zero s h = refl
length-take (suc n) [] h = absurd (omega arith)
length-take (suc n) (c ∷ s) h = omega (arith, length-take n s)

take-drop : (n : ℕ) (s : Text) → take n s ++ drop n s ≡ s
take-drop zero s = refl
take-drop (suc n) [] = refl
take-drop (suc n) (c ∷ s) = rw (take-drop n s)

truncate_short : (s : Text) (max : ℕ) → length s ≤ max → truncate_utf8 s max ≡ s
unfolding truncate_utf8
truncate_short s max h = ground arith

truncate_long :
    (s : Text) (max : ℕ) → 0 < max → max < length s → truncate_utf8 s max ≡ take (cut_back s max) s
unfolding truncate_utf8
truncate_long s max h k = ground arith

cut_length :
    (s : Text) (max : ℕ) → max < length s → length (take (cut_back s max) s) ≡ cut_back s max
cut_length s max k = length-take (cut_back s max) s (omega (arith, cut_back-le s max))

-- With a limit above zero the truncated text is a prefix of at most that many bytes, and either
-- nothing was cut off, or nothing is left, or the first byte cut off starts a rune.
pub truncate_utf8_lem :
    (s : Text) (max : ℕ)
    → 0 < max
    → let t = truncate_utf8 s max in
      (length t ≤ max)
      × ((rest : Text) × (t ++ rest ≡ s))
      × ((t ≡ s) ⊎ (length t ≡ 0) ⊎ (rune_start (byte_at s (length t)) ≡ true))
truncate_utf8_lem s max h = elim (dec_le (length s) max) [
  | yes short ↦ rw (truncate_short s max short) (short, ([], append-nil s), inl refl)
  | no long ↦
      let k : max < length s = omega arith in
      rw (truncate_long s max h k) (
        omega (arith, cut_length s max k, cut_back-le s max),
        (drop (cut_back s max) s, take-drop (cut_back s max) s),
        inr (rw (cut_length s max k) (cut_back_start s max)),
      )
]
