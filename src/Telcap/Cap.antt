-- ===== src/Telcap/Cap.antt =====
-- internal/telcap/telcap.go, Allow: one call.
use optictrace.Prelude.{
  ℕ, suc, ◌+◌, ◌≤◌, ◌<◌, ◌≡◌, ◌≢◌, true, false, List, [], ◌∷◌, Text, lookup, insert, lookup-insert,
  length, beq, beq_iff, leb, ltb, ◌==◌, if◌then◌else◌, arith, refl, ◌||◌, beq_refl, inr, ◌⊎◌,
  if_cases,
}
use native.Mathlib.Decide.{dec_lt}
use optictrace.Telcap.{Counter, count_of, older, is_new, seen, turns_over, rotate, allow}

pub length-insert :
    (k : Text) (v : ℕ) (m : List (Text × ℕ))
    → length (insert k v m) ≡ (if is_new (lookup k m) then suc (length m) else length m)
unfolding insert lookup
length-insert k v [] = refl
length-insert k v ((j, w) ∷ m) = ground (arith, length-insert k v m)

-- A call is refused exactly if there is a limit and the key has reached it; a refusal, or a call
-- with no limit, changes nothing.
pub allow_verdict :
    (c : Counter) (key : Text) (max : ℕ)
    → ((allow c key max).1 ≡ (max == 0 || ltb (seen c key) max))
      × ((max ≡ 0) ⊎ (max ≤ seen c key) → (allow c key max).0 ≡ c)
unfolding allow
allow_verdict c key max = ground arith

-- The state after a counted call, in the two cases.
unfoldable pub counted : Counter → Text → Counter → Counter
counted c key d = record d { cur = insert key (seen c key + 1) d.cur }

pub allow-counted :
    (c : Counter) (key : Text) (max : ℕ)
    → seen c key < max
    → allow c key max ≡ (counted c key (if turns_over c key then rotate c else c), true)
unfolding allow counted
allow-counted c key max h =
    let nonzero : (max == 0) ≡ false = ground arith in
    let under : leb max (seen c key) ≡ false = ground arith in rw (nonzero, under)

pub seen-counted_self : (c d : Counter) (key : Text) → seen (counted c key d) key ≡ seen c key + 1
unfolding seen counted
seen-counted_self c d key =
    rw (lookup-insert key key (count_of (lookup key c.cur) (lookup key c.prev) + 1) d.cur, beq_refl)

-- A counted call adds one to its key.
pub seen-allow_self :
    (c : Counter) (key : Text) (max : ℕ)
    → seen c key < max
    → seen (allow c key max).0 key ≡ seen c key + 1
seen-allow_self c key max h = rw (allow-counted c key max h) (seen-counted_self c _ key)

beq-ne : (a b : Text) → a ≢ b → beq a b ≡ false
beq-ne a b h = ground (arith, beq_iff a b)

pub seen-counted_ne :
    (c d : Counter) (key other : Text) → key ≢ other → seen (counted c key d) other ≡ seen d other
unfolding seen counted
seen-counted_ne c d key other ne = rw (
  lookup-insert key other (count_of (lookup key c.cur) (lookup key c.prev) + 1) d.cur,
  beq-ne key other ne,
)

seen-rotate : (c : Counter) (other : Text) → seen (rotate c) other ≡ older (lookup other c.cur)
unfolding seen lookup
seen-rotate c other = refl

-- A counted call leaves the count of every other key as it was, unless the generations turn over,
-- which keeps the counts of the newer one and forgets the rest.
pub seen-allow_ne :
    (c : Counter) (key other : Text) (max : ℕ)
    → key ≢ other
    → seen c key < max
    → seen (allow c key max).0 other
      ≡ (if turns_over c key then older (lookup other c.cur) else seen c other)
seen-allow_ne c key other max ne h =
    rw
      (
        allow-counted c key max h,
        seen-counted_ne c (if turns_over c key then rotate c else c) key other ne,
      )
      (if_cases
        (λ d.
          seen d other ≡ (if turns_over c key then older (lookup other c.cur) else seen c other))
        (turns_over c key) _ _ (λ e. rw e (seen-rotate c other)) (λ e. rw e))

pub record IsBounded (c : Counter) : Type 0 where
  pub some_room : 0 < c.max_keys
  pub newer_fits : length c.cur ≤ c.max_keys
  pub older_fits : length c.prev ≤ c.max_keys

no_turn_room :
    (c : Counter) (key : Text)
    → length c.cur ≤ c.max_keys
    → turns_over c key ≡ false
    → (if is_new (lookup key c.cur) then suc (length c.cur) else length c.cur) ≤ c.max_keys
unfolding turns_over
no_turn_room c key h e = ground arith

counted-IsBounded :
    (c : Counter) (key : Text)
    → IsBounded c
    → IsBounded (counted c key (if turns_over c key then rotate c else c))
unfolding counted lookup
counted-IsBounded c key b =
    if_cases (λ d. IsBounded (record d { cur = insert key (seen c key + 1) d.cur }))
      (turns_over c key) _ _
      (λ e. record {
        some_room = b.some_room;
        newer_fits = rw (length-insert key (seen c key + 1) []) (omega arith);
        older_fits = b.newer_fits;
      })
      (λ e. record {
        some_room = b.some_room;
        newer_fits =
            rw (length-insert key (seen c key + 1) c.cur) (no_turn_room c key b.newer_fits e);
        older_fits = b.older_fits;
      })

allow_cases :
    (P : Counter → Type 0) (c : Counter) (key : Text) (max : ℕ)
    → P c
    → (seen c key < max → P (counted c key (if turns_over c key then rotate c else c)))
    → P (allow c key max).0
allow_cases P c key max same more = elim (dec_lt (seen c key) max) [
  | yes h ↦ rw (allow-counted c key max h) (more h)
  | no h ↦ rw ((allow_verdict c key max).1 (inr (omega arith))) same
]

-- No call makes a generation of the counter hold more keys than its bound.
pub allow-IsBounded :
    (c : Counter) (key : Text) (max : ℕ) → IsBounded c → IsBounded (allow c key max).0
allow-IsBounded c key max b = allow_cases IsBounded c key max b (λ h. counted-IsBounded c key b)
