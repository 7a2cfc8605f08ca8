-- ===== src/Telcap/Run.antt =====
-- internal/telcap/telcap.go, Allow: a run of calls.
use optictrace.Prelude.{
  ℕ, min, ◌-◌, ◌+◌, ◌≤◌, ◌<◌, ◌≡◌, ◌≢◌, true, false, List, [], ◌∷◌, Text, length, beq, beq_iff,
  if◌then◌else◌, arith, refl, ◌&&◌, Bool-cases, inl, inr, ap, ◌∙◌,
}
use native.Mathlib.Decide.{dec_lt}
use optictrace.Telcap.{Counter, seen, turns_over, allow}
use optictrace.Telcap.Cap.{
  allow_verdict, counted, allow-counted, length-insert, seen-counted_self, seen-counted_ne,
}

-- How many of a run of calls the counter grants to `key`, and how many are made for it.
pub granted : Counter → ℕ → Text → List Text → ℕ
granted c max key [] = 0
granted c max key (k ∷ calls) =
    (if beq k key && (allow c k max).1 then 1 else 0) + granted (allow c k max).0 max key calls

pub calls_for : Text → List Text → ℕ
calls_for key [] = 0
calls_for key (k ∷ calls) = (if beq k key then 1 else 0) + calls_for key calls

room_no_turn : (c : Counter) (key : Text) → length c.cur < c.max_keys → turns_over c key ≡ false
unfolding turns_over
room_no_turn c key h = ground arith

-- A counted call that meets room.
record Grows (c d : Counter) (key : Text) : Type 0 where
  own : seen d key ≡ seen c key + 1
  others : (j : Text) → key ≢ j → seen d j ≡ seen c j
  room : length d.cur ≤ length c.cur + 1
  same_bound : d.max_keys ≡ c.max_keys

allow-Grows :
    (c : Counter) (key : Text) (max : ℕ)
    → seen c key < max
    → length c.cur < c.max_keys
    → Grows c (allow c key max).0 key
allow-Grows c key max h r =
    rw (allow-counted c key max h, room_no_turn c key r)
      (record {
        own = seen-counted_self c c key;
        others = λ j ne. seen-counted_ne c c key j ne;
        room = unfold counted in rw (length-insert key (seen c key + 1) c.cur) (ground arith);
        same_bound = unfold counted in refl;
      })

granted-counted :
    (c d : Counter) (max n calls : ℕ) (key k : Text)
    → Grows c d k
    → seen c k < max
    → n ≡ min (max - seen d key) calls
    → (if beq k key && true then 1 else 0) + n
      ≡ min (max - seen c key) ((if beq k key then 1 else 0) + calls)
granted-counted c d max n calls key k g h e = elim (Bool-cases (beq k key)) [
  | inl same ↦
      let p : k ≡ key = (beq_iff k key).0 same in
      let own : seen d key ≡ seen c key + 1 = rw p at g.own in
      let under : seen c key < max = rw p at h in rw same (omega arith)
  | inr other ↦
      let p : seen d key ≡ seen c key = g.others key (λ q. ground (arith, beq_iff k key)) in
      rw other (omega arith)
]

granted-refused :
    (c : Counter) (max n calls : ℕ) (key k : Text)
    → max ≤ seen c k
    → n ≡ min (max - seen c key) calls
    → (if beq k key && false then 1 else 0) + n
      ≡ min (max - seen c key) ((if beq k key then 1 else 0) + calls)
granted-refused c max n calls key k h e = elim (Bool-cases (beq k key)) [
  | inl same ↦
      let p : k ≡ key = (beq_iff k key).0 same in
      let over : max ≤ seen c key = rw p at h in rw same (omega arith)
  | inr other ↦ rw other (omega arith)
]

-- With a limit above zero, over a run of calls that the newer generation has room for, a key is
-- granted the lesser of what its limit leaves and the calls made for it, whatever calls for other
-- keys stand between.
pub granted_lem :
    (c : Counter) (max : ℕ) (key : Text) (calls : List Text)
    → 0 < max
    → length c.cur + length calls ≤ c.max_keys
    → granted c max key calls ≡ min (max - seen c key) (calls_for key calls)
unfolding granted calls_for
granted_lem c max key [] h r = omega arith
granted_lem c max key (k ∷ calls) h r = elim (dec_lt (seen c k) max) [
  | yes under ↦
      let g = allow-Grows c k max under (omega arith) in
      rw (ap (λ q. q.1) (allow-counted c k max under)) (
        granted-counted c (allow c k max).0 max _ _ key k g under
          (granted_lem (allow c k max).0 max key calls h (omega arith)))
  | no over ↦
      let v = allow_verdict c k max in
      let refused : (allow c k max).1 ≡ false = v.0 ∙ ground arith in
      rw (refused, v.1 (inr (omega arith)))
        (granted-refused c max _ _ key k (omega arith)
          (granted_lem c max key calls h (omega arith)))
]
