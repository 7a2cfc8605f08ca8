-- ===== src/Engine/Knowledge.antt =====
-- internal/engine/engine.go, evaluate: two views of one request, of which one knows more.
use optictrace.Prelude.{
  true, List, [], ◌∷◌, ◌++◌, Text, ◌≡◌, refl, arith, Bool-cases, inl, inr, Option, none, ◌⊎◌,
}
use mathlib.Core.List.{Sublistᴰ}
use optictrace.Floats.{Floats}
use optictrace.Json.{Value}
use optictrace.Redact.{JsonPath}
use optictrace.Label.{MultiMap}
use optictrace.Policy.{CaptureField}
use optictrace.Engine.{
  Regexp, CompiledRule, Engine, Attrs, applies, operation_match, criteria_match, headers_match,
  query_match, body_match, evaluate_attrs,
}
use optictrace.Engine.Capture.{captures, restricted, captures-evaluate_attrs}
use optictrace.Engine.Matched.{applicable, collected, evaluate_attrs_collects}

-- `b` says what `a` says, and perhaps more: a map, a body or an operation that `a` lacks.
pub record KnowsLess {F : Type 0} (a b : Attrs F) : Type 0 where
  pub same_method : a.method ≡ b.method
  pub same_path : a.path ≡ b.path
  pub fewer_headers : (a.headers ≡ none) ⊎ (a.headers ≡ b.headers)
  pub less_query : (a.query ≡ none) ⊎ (a.query ≡ b.query)
  pub less_operation : (a.operation ≡ []) ⊎ (a.operation ≡ b.operation)
  pub less_body : (a.body ≡ none) ⊎ (a.body ≡ b.body)

module _ {F : Type 0} (ops : Floats F) (canonical_key : Text → Text) where
  headers_more :
      (cs : List (Text × Regexp)) (h k : Option MultiMap)
      → (h ≡ none) ⊎ (h ≡ k)
      → headers_match ops canonical_key cs h ≡ true
      → headers_match ops canonical_key cs k ≡ true
  headers_more cs h k (inr e) m = rw e at m
  headers_more [] h k (inl e) m = refl
  headers_more ((n, re) ∷ cs) h k (inl e) m = ground arith

  query_more :
      (cs : List (Text × Regexp)) (h k : Option MultiMap)
      → (h ≡ none) ⊎ (h ≡ k)
      → query_match ops canonical_key cs h ≡ true
      → query_match ops canonical_key cs k ≡ true
  query_more cs h k (inr e) m = rw e at m
  query_more [] h k (inl e) m = refl
  query_more ((n, re) ∷ cs) h k (inl e) m = ground arith

  body_more :
      (cs : List (Text × Regexp)) (ps : List (Text × JsonPath)) (h k : Option (Value F))
      → (h ≡ none) ⊎ (h ≡ k)
      → body_match ops canonical_key cs ps h ≡ true
      → body_match ops canonical_key cs ps k ≡ true
  body_more cs ps h k (inr e) m = rw e at m
  body_more [] ps h k (inl e) m = refl
  body_more ((n, re) ∷ cs) ps h k (inl e) m = ground arith

  operation_more :
      (g o q : Text) → (o ≡ []) ⊎ (o ≡ q) → operation_match g o ≡ true → operation_match g q ≡ true
  unfolding operation_match
  operation_more g o q (inr e) m = rw e at m
  operation_more [] o q (inl e) m = refl
  operation_more (c ∷ g) o q (inl e) m = ground arith

  -- A rule that applies to what is known of a request applies when more of it is known.
  pub applies_more :
      (r : CompiledRule F) (a b : Attrs F)
      → KnowsLess a b
      → applies ops canonical_key r a ≡ true
      → applies ops canonical_key r b ≡ true
  unfolding applies criteria_match
  applies_more r a b k h = ground (
    arith,
    headers_more r.hdr_criteria a.headers b.headers k.fewer_headers,
    query_more r.qry_criteria a.query b.query k.less_query,
    body_more r.body_criteria r.body_paths a.body b.body k.less_body,
    operation_more r.gql_op a.operation b.operation k.less_operation,
    k.same_method,
    k.same_path,
  )

sub-refl {ℓ} : {A : Type ℓ} (xs : List A) → Sublistᴰ xs xs
sub-refl [] = Sublistᴰ.slnil
sub-refl (x ∷ xs) = Sublistᴰ.cons-cons refl (sub-refl xs)

sub-skip {ℓ} : {A : Type ℓ} (zs : List A) {xs ys : List A} → Sublistᴰ xs ys → Sublistᴰ xs (zs ++ ys)
sub-skip [] s = s
sub-skip (z ∷ zs) s = Sublistᴰ.cons (sub-skip zs s)

sub-append {ℓ} :
    {A : Type ℓ} (zs : List A) {xs ys : List A} → Sublistᴰ xs ys → Sublistᴰ (zs ++ xs) (zs ++ ys)
sub-append [] s = s
sub-append (z ∷ zs) s = Sublistᴰ.cons-cons refl (sub-append zs s)

module _ {F : Type 0} (ops : Floats F) (canonical_key : Text → Text) (a b : Attrs F)
    (k : KnowsLess a b) where
  -- What the rules that apply give, for fewer and for more of them.
  collected_more :
      {A : Type 0} (f : CompiledRule F → List A) (rs : List (CompiledRule F))
      → Sublistᴰ
          (collected f (applicable ops canonical_key a rs))
          (collected f (applicable ops canonical_key b rs))
  collected_more f [] = Sublistᴰ.slnil
  collected_more f (r ∷ rs) = elim (Bool-cases (applies ops canonical_key r a)) [
    | inl e ↦
        rw (e, applies_more ops canonical_key r a b k e) (sub-append (f r) (collected_more f rs))
    | inr e ↦ rw e (elim (Bool-cases (applies ops canonical_key r b)) [
      | inl e' ↦ rw e' (sub-skip (f r) (collected_more f rs))
      | inr e' ↦ rw e' (collected_more f rs)
    ])
  ]

  restricted_more :
      (f : CaptureField) (rs : List (CompiledRule F))
      → restricted ops canonical_key a f rs ≡ true
      → restricted ops canonical_key b f rs ≡ true
  restricted_more f [] h = h
  restricted_more f (r ∷ rs) h =
      ground (arith, applies_more ops canonical_key r a b k, restricted_more f rs)

  -- Of two views of one request, of which the second has what the first has of headers, query,
  -- operation and body, and perhaps more, the second gets a policy that governs at least as
  -- strictly: it opens no channel, and has every matched rule and every redaction of the other, in
  -- the same order.
  pub evaluate_attrs-KnowsLess :
      (e : Engine F)
      → let p = evaluate_attrs ops canonical_key e a in
        let q = evaluate_attrs ops canonical_key e b in
        ((f : CaptureField) → captures f q ≡ true → captures f p ≡ true)
        × Sublistᴰ p.matched_rules q.matched_rules
        × Sublistᴰ p.redact_headers q.redact_headers
        × Sublistᴰ p.redact_query q.redact_query
        × Sublistᴰ p.redact_json_paths q.redact_json_paths
  evaluate_attrs-KnowsLess e =
      let (m, h, q, j) = evaluate_attrs_collects ops canonical_key a e in
      let (m', h', q', j') = evaluate_attrs_collects ops canonical_key b e in
      (
        λ f c. rw (captures-evaluate_attrs ops canonical_key a e f) (
            ground (
              arith,
              c,
              captures-evaluate_attrs ops canonical_key b e f,
              restricted_more f e.rules,
            )),
        rw (m, m') (collected_more (λ r. r.name ∷ []) e.rules),
        rw (h, h') (collected_more (λ r. r.redact_hdrs) e.rules),
        rw (q, q') (collected_more (λ r. r.redact_query) e.rules),
        rw (j, j') (collected_more (λ r. r.redact_paths) e.rules),
      )
