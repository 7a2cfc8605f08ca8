-- ===== src/Engine/Needs.antt =====
-- internal/engine/engine.go: what of a request the rules can read at all, which is what callers ask
-- before they do the work of reading it.
use optictrace.Prelude.{
  Bool, true, false, not, ◌&&◌, ◌||◌, List, [], ◌∷◌, Text, any, All, is_empty, ◌≡◌, refl,
  if◌then◌else◌, arith, Bool-cases, inl, inr, Option,
}
use optictrace.Floats.{Floats}
use optictrace.Json.{Value}
use optictrace.Redact.{JsonPath}
use optictrace.Glob.{split_path, match_segments}
use optictrace.Label.{MultiMap, needs_response_body, Kind, json}
use optictrace.Policy.{Policy}
use optictrace.Engine.{
  Regexp, CompiledRule, Engine, Attrs, applies, criteria_match, operation_match, headers_match,
  query_match, body_match, evaluate_rules, evaluate_attrs, merge_rule,
}

abbrev pub is_body_label : Kind → Bool
is_body_label json = true
is_body_label _ = false

module _ {F : Type 0} where
  -- `need` of one rule, after the loop over its labels.
  abbrev pub needs_request_body : CompiledRule F → Bool
  needs_request_body r =
      not (is_empty r.body_criteria) || any (λ l. is_body_label l.1.kind) r.labels

  abbrev pub paths_of_body_rules : List (CompiledRule F) → List (List Text)
  paths_of_body_rules [] = []
  paths_of_body_rules (r ∷ rs) =
      if needs_request_body r then r.path_segs ∷ paths_of_body_rules rs else paths_of_body_rules rs

  unfoldable pub body_rule_paths : Engine F → List (List Text)
  body_rule_paths e = paths_of_body_rules e.rules

  unfoldable pub reads_response_body : Engine F → Bool
  unfolding needs_response_body
  reads_response_body e = any (λ r. any (λ l. needs_response_body l.1) r.labels) e.rules

  unfoldable pub has_criteria_rules : Engine F → Bool
  has_criteria_rules e =
      any (λ r. not (is_empty r.hdr_criteria) || not (is_empty r.qry_criteria)) e.rules

  unfoldable pub has_graphql_rules : Engine F → Bool
  has_graphql_rules e = any (λ r. not (is_empty r.gql_op)) e.rules

any-All {ℓ} :
    {A : Type ℓ} (f : A → Bool) (xs : List A) → any f xs ≡ false → All (λ x. f x ≡ false) xs
any-All f [] h = tt
any-All f (x ∷ xs) h = (ground arith, any-All f xs (ground arith))

All-map {ℓ κ μ} :
    {A : Type ℓ} {P : A → Type κ} {Q : A → Type μ} (xs : List A)
    → ((x : A) → P x → Q x)
    → All P xs
    → All Q xs
All-map [] f h = tt
All-map (x ∷ xs) f (p, h) = (f x p, All-map xs f h)

module _ {F : Type 0} (ops : Floats F) (canonical_key : Text → Text) where
  -- Two requests that every rule decides alike get the same policy.
  evaluate_rules-alike :
      (a b : Attrs F) (rs : List (CompiledRule F)) (p : Policy F)
      → All (λ r. applies ops canonical_key r a ≡ applies ops canonical_key r b) rs
      → evaluate_rules ops canonical_key rs a p ≡ evaluate_rules ops canonical_key rs b p
  unfolding evaluate_rules
  evaluate_rules-alike a b [] p h = refl
  evaluate_rules-alike a b (r ∷ rs) p (e, h) =
      rw e (
        evaluate_rules-alike a b rs (if applies ops canonical_key r b then merge_rule r p else p) h)

  evaluate_attrs-alike :
      (a b : Attrs F) (e : Engine F)
      → All (λ r. applies ops canonical_key r a ≡ applies ops canonical_key r b) e.rules
      → evaluate_attrs ops canonical_key e a ≡ evaluate_attrs ops canonical_key e b
  unfolding evaluate_attrs
  evaluate_attrs-alike a b e h = evaluate_rules-alike a b e.rules _ h

  no_operation :
      (a : Attrs F) (operation : Text) (r : CompiledRule F)
      → not (is_empty r.gql_op) ≡ false
      → applies ops canonical_key r (record a { operation = operation })
        ≡ applies ops canonical_key r a
  unfolding applies operation_match criteria_match
  no_operation a operation r h = ground arith

  -- If no rule is reported to constrain an operation, the operation makes no difference to the
  -- policy.
  pub evaluate_attrs-has_graphql_rules :
      (e : Engine F) (a : Attrs F) (operation : Text)
      → has_graphql_rules e ≡ false
      → evaluate_attrs ops canonical_key e (record a { operation = operation })
        ≡ evaluate_attrs ops canonical_key e a
  unfolding has_graphql_rules
  evaluate_attrs-has_graphql_rules e a operation h =
      evaluate_attrs-alike (record a { operation = operation }) a e
        (All-map e.rules (no_operation a operation) (any-All _ e.rules h))

  headers_free :
      (cs : List (Text × Regexp)) (h k : Option MultiMap)
      → is_empty cs ≡ true
      → headers_match ops canonical_key cs h ≡ headers_match ops canonical_key cs k
  headers_free [] h k e = refl
  headers_free (c ∷ cs) h k e = absurd (ground arith)

  query_free :
      (cs : List (Text × Regexp)) (h k : Option MultiMap)
      → is_empty cs ≡ true
      → query_match ops canonical_key cs h ≡ query_match ops canonical_key cs k
  query_free [] h k e = refl
  query_free (c ∷ cs) h k e = absurd (ground arith)

  body_free :
      (cs : List (Text × Regexp)) (ps : List (Text × JsonPath)) (h k : Option (Value F))
      → is_empty cs ≡ true
      → body_match ops canonical_key cs ps h ≡ body_match ops canonical_key cs ps k
  body_free [] ps h k e = refl
  body_free (c ∷ cs) ps h k e = absurd (ground arith)

  no_criteria :
      (a b : Attrs F) (r : CompiledRule F)
      → a.method ≡ b.method
      → a.path ≡ b.path
      → a.operation ≡ b.operation
      → a.body ≡ b.body
      → (not (is_empty r.hdr_criteria) || not (is_empty r.qry_criteria)) ≡ false
      → applies ops canonical_key r a ≡ applies ops canonical_key r b
  unfolding applies criteria_match
  no_criteria a b r m p o d h = rw (
    m,
    p,
    o,
    d,
    headers_free r.hdr_criteria a.headers b.headers (ground arith),
    query_free r.qry_criteria a.query b.query (ground arith),
  )

  -- If no rule is reported to match on headers or the query, requests that differ only in these
  -- get the same policy.
  pub evaluate_attrs-has_criteria_rules :
      (e : Engine F) (a b : Attrs F)
      → has_criteria_rules e ≡ false
      → a.method ≡ b.method
      → a.path ≡ b.path
      → a.operation ≡ b.operation
      → a.body ≡ b.body
      → evaluate_attrs ops canonical_key e a ≡ evaluate_attrs ops canonical_key e b
  unfolding has_criteria_rules
  evaluate_attrs-has_criteria_rules e a b h m p o d =
      evaluate_attrs-alike a b e
        (All-map e.rules (λ r q. no_criteria a b r m p o d q) (any-All _ e.rules h))

  no_body :
      (a : Attrs F) (body : Option (Value F)) (r : CompiledRule F)
      → (not (is_empty r.body_criteria) && match_segments r.path_segs (split_path a.path)) ≡ false
      → applies ops canonical_key r (record a { body = body }) ≡ applies ops canonical_key r a
  unfolding applies criteria_match
  no_body a body r h = elim (Bool-cases (is_empty r.body_criteria)) [
    | inl e ↦ rw (body_free r.body_criteria r.body_paths body a.body e)
    | inr e ↦ ground arith
  ]

  missed :
      (segs : List Text) (rs : List (CompiledRule F))
      → any (λ glob. match_segments glob segs) (paths_of_body_rules rs) ≡ false
      → All (λ r. (needs_request_body r && match_segments r.path_segs segs) ≡ false) rs
  missed segs [] h = tt
  missed segs (r ∷ rs) h = elim (Bool-cases (needs_request_body r)) [
    | inl e ↦ (ground arith, missed segs rs (ground arith))
    | inr e ↦ (ground arith, missed segs rs (ground arith))
  ]

  -- If the path of a request matches none of the paths reported for body rules, its body makes no
  -- difference to the policy.
  pub evaluate_attrs-body_rule_paths :
      (e : Engine F) (a : Attrs F) (body : Option (Value F))
      → any (λ glob. match_segments glob (split_path a.path)) (body_rule_paths e) ≡ false
      → evaluate_attrs ops canonical_key e (record a { body = body })
        ≡ evaluate_attrs ops canonical_key e a
  unfolding body_rule_paths
  evaluate_attrs-body_rule_paths e a body h =
      evaluate_attrs-alike (record a { body = body }) a e
        (All-map e.rules (λ r q. no_body a body r (ground arith))
          (missed (split_path a.path) e.rules h))
