-- ===== src/Applog/Tighten.antt =====
-- internal/applog/applog.go, resolve: what the rules for a route change of the global policy.
use optictrace.Prelude.{
  ℕ, ◌≤◌, ◌<◌, true, ◌||◌, List, [], ◌∷◌, ◌++◌, append-nil, append_assoc, Text, contains,
  contains-append, is_empty, if_cases, ◌≡◌, ◌⊎◌, refl, ap, ◌∙◌, sym, arith,
}
use optictrace.Spans.{Replacement}
use optictrace.Applog.{
  RoutePolicy, Governor, Effective, global, is_for, tighten, tighten_all, resolve,
}

-- `b` is at least as strict as `a`. A cap of 0 is none.
pub record IsStricter (a b : Effective) : Type 0 where
  pub higher_floor : a.floor ≤ b.floor
  pub lower_cap : (a.max_lines ≡ 0) ⊎ ((0 < b.max_lines) × (b.max_lines ≤ a.max_lines))
  pub still_drops : a.drop ≡ true → b.drop ≡ true
  pub more_patterns : (extra : List Replacement) × (b.patterns ≡ a.patterns ++ extra)
  pub more_fields : (k : Text) → contains a.fields k ≡ true → contains b.fields k ≡ true

IsStricter-refl : (a : Effective) → IsStricter a a
IsStricter-refl a = record {
  higher_floor = omega arith;
  lower_cap = same_cap a.max_lines;
  still_drops = λ h. h;
  more_patterns = ([], sym (append-nil a.patterns));
  more_fields = λ k h. h;
}
  where
    same_cap : (n : ℕ) → (n ≡ 0) ⊎ ((0 < n) × (n ≤ n))
    same_cap n = ground arith

IsStricter-trans : {a b c : Effective} → IsStricter a b → IsStricter b c → IsStricter a c
IsStricter-trans {a = a} {b = b} {c = c} p q =
    let (e, h) = p.more_patterns in
    let (f, k) = q.more_patterns in
    record {
      higher_floor = omega (arith, p.higher_floor, q.higher_floor);
      lower_cap = ground (arith, p.lower_cap, q.lower_cap);
      still_drops = λ d. q.still_drops (p.still_drops d);
      more_patterns = (e ++ f, k ∙ ap (λ l. l ++ f) h ∙ append_assoc a.patterns e f);
      more_fields = λ j d. q.more_fields j (p.more_fields j d);
    }

-- What a matching rule asks for.
pub record Enforces (rp : RoutePolicy) (b : Effective) : Type 0 where
  pub at_floor : rp.floor ≤ b.floor
  pub at_cap : (rp.max_lines ≡ 0) ⊎ ((0 < b.max_lines) × (b.max_lines ≤ rp.max_lines))
  pub also_drops : rp.drop ≡ true → b.drop ≡ true
  pub masks : (k : Text) → contains rp.fields k ≡ true → contains b.fields k ≡ true

tighten-IsStricter : (rp : RoutePolicy) (a : Effective) → IsStricter a (tighten rp a)
tighten-IsStricter rp a = record {
  higher_floor = ground arith;
  lower_cap = ground arith;
  still_drops = λ h. ground arith;
  more_patterns = (rp.patterns, refl);
  more_fields = λ k h. ground (arith, contains-append a.fields rp.fields k);
}

tighten_all-IsStricter :
    (route : Text) (rps : List RoutePolicy) (a : Effective) → IsStricter a (tighten_all route rps a)
unfolding tighten_all
tighten_all-IsStricter route [] a = IsStricter-refl a
tighten_all-IsStricter route (rp ∷ rps) a =
    if_cases (λ b. IsStricter a (tighten_all route rps b)) (is_for rp route) _ _
      (λ e.
        IsStricter-trans (tighten-IsStricter rp a)
          (tighten_all-IsStricter route rps (tighten rp a)))
      (λ e. tighten_all-IsStricter route rps a)

-- Whatever route a line claims, its policy is at least as strict as the global one: the floor as
-- high, the cap as low, every global pattern and field kept.
pub resolve-IsStricter : (g : Governor) (route : Text) → IsStricter (global g) (resolve g route)
unfolding resolve
resolve-IsStricter g route =
    if_cases (λ b. IsStricter (global g) b) (is_empty route || is_empty g.routes) _ _
      (λ e. IsStricter-refl (global g)) (λ e. tighten_all-IsStricter route g.routes (global g))
