-- ===== src/Metrics/Guarded.antt =====
-- internal/metrics/metrics.go, guard: what the values of the custom labels can be.
use optictrace.Prelude.{
  ℕ, suc, ◌≤◌, ℤ, pos, Bool, true, false, ◌&&◌, ◌||◌, Option, none, some, List, [], ◌∷◌, Text, beq,
  beq_iff, beq_refl, contains, lookup, lookup-insert, insert, length, is_empty, drop, every, ◌≡◌,
  refl, ◌∙◌, subst, sym, arith, leb, if_cases,
}
use optictrace.Metrics.{
  limit, Metric, dec, set, Call, add, observe, requests, duration, Collector, over_limit, values_of,
  guard, guard_all, guard_under, label_of,
}

-- A value that a label may take: no value, the one that stands for all the rest, or one of those kept.
unfoldable pub is_kept : List (Text × List Text) → Text → Text → Bool
is_kept seen key v = is_empty v || (beq v over_limit || contains (values_of seen key) v)

unfoldable pub aligned : List (Text × List Text) → List Text → List Text → Bool
aligned seen [] [] = true
aligned seen (k ∷ keys) (v ∷ vals) = is_kept seen k v && aligned seen keys vals
aligned seen _ _ = false

-- How many values stand before those of the custom labels, in the two vectors that have them.
abbrev pub base_labels : Metric → Option ℕ
base_labels requests = some 5
base_labels duration = some 3
base_labels _ = none

abbrev pub metric_of : Call → Metric
metric_of (add m vals n) = m
metric_of (dec m vals n) = m
metric_of (set m vals n) = m
metric_of (observe m vals n) = m

abbrev pub label_values : Call → List Text
label_values (add m vals n) = vals
label_values (dec m vals n) = vals
label_values (set m vals n) = vals
label_values (observe m vals n) = vals

unfoldable pub kept_after : List (Text × List Text) → List Text → Option ℕ → List Text → Bool
unfolding aligned
kept_after seen keys none vals = false
kept_after seen keys (some base) vals = aligned seen keys (drop base vals)

-- A call on one of these two, whose values fit the schema.
unfoldable pub has_kept : List (Text × List Text) → List Text → Call → Bool
has_kept seen keys call = kept_after seen keys (base_labels (metric_of call)) (label_values call)

pub record IsCapped (n : ℕ) (c : Collector) : Type 0 where
  pub limited : c.max_label_values ≡ pos (suc n)
  pub few : (key : Text) → length (values_of c.seen key) ≤ suc n
  pub kept : every (has_kept c.seen c.dims.keys) c.dims.calls ≡ true

kept_mono :
    (seen : List (Text × List Text)) (k v j w : Text)
    → is_kept seen j w ≡ true
    → is_kept (insert k (v ∷ values_of seen k) seen) j w ≡ true
unfolding is_kept values_of contains
kept_mono seen k v j w h =
    ground (arith, lookup-insert k j (v ∷ values_of seen k) seen, beq_iff k j)

aligned_mono :
    (seen : List (Text × List Text)) (k v : Text) (keys vals : List Text)
    → aligned seen keys vals ≡ true
    → aligned (insert k (v ∷ values_of seen k) seen) keys vals ≡ true
unfolding aligned
aligned_mono seen k v [] [] h = refl
aligned_mono seen k v (j ∷ keys) (w ∷ vals) h =
    ground (arith, kept_mono seen k v j w, aligned_mono seen k v keys vals)
aligned_mono seen k v [] (w ∷ vals) h = h
aligned_mono seen k v (j ∷ keys) [] h = h

kept_after_mono :
    (seen : List (Text × List Text)) (k v : Text) (keys : List Text) (base : Option ℕ)
    (vals : List Text)
    → kept_after seen keys base vals ≡ true
    → kept_after (insert k (v ∷ values_of seen k) seen) keys base vals ≡ true
unfolding kept_after
kept_after_mono seen k v keys none vals h = h
kept_after_mono seen k v keys (some base) vals h = aligned_mono seen k v keys (drop base vals) h

has_kept_mono :
    (seen : List (Text × List Text)) (k v : Text) (keys : List Text) (call : Call)
    → has_kept seen keys call ≡ true
    → has_kept (insert k (v ∷ values_of seen k) seen) keys call ≡ true
unfolding has_kept
has_kept_mono seen k v keys call h = kept_after_mono seen k v keys _ _ h

every_mono :
    (seen : List (Text × List Text)) (k v : Text) (keys : List Text) (calls : List Call)
    → every (has_kept seen keys) calls ≡ true
    → every (has_kept (insert k (v ∷ values_of seen k) seen) keys) calls ≡ true
every_mono seen k v keys [] h = refl
every_mono seen k v keys (call ∷ calls) h =
    ground (arith, has_kept_mono seen k v keys call, every_mono seen k v keys calls)

few-insert :
    (n : ℕ) (seen : List (Text × List Text)) (k v key : Text)
    → length (values_of seen key) ≤ suc n
    → leb (suc n) (length (values_of seen k)) ≡ false
    → length (values_of (insert k (v ∷ values_of seen k) seen) key) ≤ suc n
unfolding values_of
few-insert n seen k v key few room =
    ground (arith, lookup-insert k key (v ∷ values_of seen k) seen, beq_iff k key)

-- What a guarded value leaves: a capped collector, the value among those kept, and the schema and the
-- calls of the collector before.
record IsGuarded (n : ℕ) (c : Collector) (key : Text) (r : Collector × Text) : Type 0 where
  capped : IsCapped n r.0
  has_value : is_kept r.0.seen key r.1 ≡ true
  mono : (j w : Text) → is_kept c.seen j w ≡ true → is_kept r.0.seen j w ≡ true
  same_schema : r.0.dims ≡ c.dims

over-kept : (seen : List (Text × List Text)) (key : Text) → is_kept seen key over_limit ≡ true
unfolding is_kept
over-kept seen key = rw (beq_refl over_limit) refl

new-kept :
    (seen : List (Text × List Text)) (key v : Text)
    → is_kept (insert key (v ∷ values_of seen key) seen) key v ≡ true
unfolding is_kept values_of contains
new-kept seen key v =
    ground (arith, lookup-insert key key (v ∷ values_of seen key) seen, beq_refl key, beq_refl v)

guard_under-IsGuarded :
    (n : ℕ) (c : Collector) (key v : Text)
    → IsCapped n c
    → IsGuarded n c key (guard_under (some (suc n)) c key v)
unfolding is_kept
guard_under-IsGuarded n c key v h =
    if_cases (IsGuarded n c key) (is_empty v) _ _
      (λ e. record { capped = h; has_value = rw e refl; mono = λ j w k. k; same_schema = refl })
      (λ e.
        if_cases (IsGuarded n c key) (contains (values_of c.seen key) v) _ _
          (λ m. record {
            capped = h;
            has_value = ground (arith, m);
            mono = λ j w k. k;
            same_schema = refl;
          })
          (λ m.
            if_cases (IsGuarded n c key) (leb (suc n) (length (values_of c.seen key))) _ _
              (λ full. record {
                capped = record { limited = h.limited; few = h.few; kept = h.kept };
                has_value = over-kept c.seen key;
                mono = λ j w k. k;
                same_schema = refl;
              })
              (λ room. record {
                capped = record {
                  limited = h.limited;
                  few = λ k. few-insert n c.seen key v k (h.few k) room;
                  kept = every_mono c.seen key v c.dims.keys c.dims.calls h.kept;
                };
                has_value = new-kept c.seen key v;
                mono = λ j w k. kept_mono c.seen key v j w k;
                same_schema = refl;
              })))

guard-IsGuarded :
    (n : ℕ) (c : Collector) (key v : Text) → IsCapped n c → IsGuarded n c key (guard c key v)
unfolding guard
guard-IsGuarded n c key v h =
    subst (λ (m : ℤ). IsGuarded n c key (guard_under (limit m) c key v)) (sym h.limited)
      (guard_under-IsGuarded n c key v h)

pub record AreGuarded (n : ℕ) (c : Collector) (keys : List Text) (r : Collector × List Text)
    : Type 0 where
  pub capped : IsCapped n r.0
  pub have_values : aligned r.0.seen keys r.1 ≡ true
  pub mono : (j w : Text) → is_kept c.seen j w ≡ true → is_kept r.0.seen j w ≡ true
  pub same_schema : r.0.dims ≡ c.dims

pub guard_all-AreGuarded :
    (n : ℕ) (c : Collector) (labels : List (Text × Text)) (keys : List Text)
    → IsCapped n c
    → AreGuarded n c keys (guard_all c labels keys)
unfolding guard_all aligned
guard_all-AreGuarded n c labels [] h = record {
  capped = h;
  have_values = refl;
  mono = λ j w k. k;
  same_schema = refl;
}
guard_all-AreGuarded n c labels (k ∷ keys) h =
    let v = label_of (lookup k labels) in
    let one = guard-IsGuarded n c k v h in
    let rest = guard_all-AreGuarded n (guard c k v).0 labels keys one.capped in
    record {
      capped = rest.capped;
      have_values = rw (rest.mono k _ one.has_value) rest.have_values;
      mono = λ j w m. rest.mono j w (one.mono j w m);
      same_schema = rest.same_schema ∙ one.same_schema;
    }
