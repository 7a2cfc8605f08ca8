-- ===== src/Spec/Covered.antt =====
-- internal/spec: a document inferred from recorded traffic, checked against that traffic.
use optictrace.Prelude.{
  true, some, List, [], ◌∷◌, Text, lookup, map, beq, beq_iff, All, every, to_lower, sort_texts, ◌≡◌,
  refl, arith, Option-cases, Bool-cases, inl, inr, ◌∙◌, ap,
}
use optictrace.Floats.{Floats}
use optictrace.Config.Rules.{is_some}
use optictrace.Spec.{Operation, Document}
use optictrace.Spec.Paths.{open_api_path}
use optictrace.Spec.Infer.{
  Record, Tally, Ops, Decoders, add_all, operations_at, all_paths, finish, infer, fst,
}
use optictrace.Spec.Fields.{match_path}
use optictrace.Spec.Check.{usage_key, observe, find_operation, check}
use optictrace.Spec.Grouped.{tally_at, HasTally, All-HasTally}
use optictrace.Spec.Known.{
  AreKnown-append, AreKnown-check_keys, AreKnown-check_unused, IsServed, served, All-observe,
  every-sort_findings, All-sort_texts, has_no_space, is_known,
}

module _ {F : Type 0} where
  -- The document of a tally has its operation.
  lookup-operations_at :
      (path method : Text) (t : Tally F) (methods : List (Text × Tally F))
      → lookup method methods ≡ some t
      → is_some (lookup method (operations_at path methods)) ≡ true
  unfolding lookup
  lookup-operations_at path method t [] h = cc
  lookup-operations_at path method t ((m, u) ∷ methods) h =
      ground (arith, lookup-operations_at path method t methods)

  lookup-all_paths :
      (path : Text) (methods : List (Text × Tally F)) (all : Ops F)
      → lookup path all ≡ some methods
      → lookup path (all_paths all) ≡ some (operations_at path methods)
  unfolding lookup all_paths
  lookup-all_paths path methods [] h = cc
  lookup-all_paths path methods ((p, ms) ∷ all) h = elim (Bool-cases (beq p path)) [
    | inl e ↦
        let q : p ≡ path = (beq_iff p path).0 e in
        let w : some ms ≡ some methods = (rw e at h) in
        rw e (
          ap (λ (x : List (Text × Tally F)). some (operations_at p x)) (ground (arith, w))
          ∙ ap (λ (x : Text). some (operations_at x methods)) q)
    | inr e ↦ rw e (lookup-all_paths path methods all (rw e at h))
  ]

  find_operation-some :
      (s : Document F) (method tmpl : Text) (ops : List (Text × Operation F))
      → lookup tmpl s.paths ≡ some ops
      → is_some (lookup (to_lower method) ops) ≡ true
      → is_some (find_operation s method (some tmpl)) ≡ true
  find_operation-some s method tmpl ops e h = elim (Option-cases (lookup (to_lower method) ops)) [
    | inl n ↦ ground (arith, n, h)
    | inr (op, o) ↦ simp (e, o) refl
  ]

  match_path-exact :
      (s : Document F) (path : Text) (ops : List (Text × Operation F))
      → lookup path s.paths ≡ some ops
      → match_path s path ≡ some path
  unfolding match_path
  match_path-exact s path ops e = rw e refl

  -- An operation with a tally is found again in the document.
  found-at :
      (all : Ops F) (service path method : Text) (methods : List (Text × Tally F)) (t : Tally F)
      → lookup path all ≡ some methods
      → lookup (to_lower method) methods ≡ some t
      → is_some (find_operation (finish service all) method (match_path (finish service all) path))
        ≡ true
  unfolding finish
  found-at all service path method methods t e h =
      let at_path = lookup-all_paths path methods all e in
      rw (match_path-exact (finish service all) path (operations_at path methods) at_path) (
        find_operation-some (finish service all) method path (operations_at path methods) at_path
          (lookup-operations_at path (to_lower method) t methods h))

  found :
      (all : Ops F) (service path method : Text)
      → is_some (tally_at all path (to_lower method)) ≡ true
      → is_some (find_operation (finish service all) method (match_path (finish service all) path))
        ≡ true
  unfolding tally_at
  found all service path method h = elim (Option-cases (lookup path all)) [
    | inl n ↦ ground (arith, n, h)
    | inr (methods, e) ↦ elim (Option-cases (lookup (to_lower method) methods)) [
      | inl n ↦ ground (arith, n, e, h)
      | inr (t, o) ↦ found-at all service path method methods t e o
    ]
  ]

  services-IsServed :
      (ops : Floats F) (d : Decoders F) (service : Text) (recs sub : List Record)
      → All (HasTally ops d (add_all ops d [] recs)) sub
      → All (λ rec. has_no_space rec.method ≡ true) sub
      → All (λ rec. IsServed (infer ops d service recs) (usage_key rec)) sub
  unfolding infer usage_key
  services-IsServed ops d service recs [] h k = tt
  services-IsServed ops d service recs (rec ∷ sub) h k = (
    served (finish service (add_all ops d [] recs)) rec.method (open_api_path rec.path) k.0
        (found (add_all ops d [] recs) service (open_api_path rec.path) rec.method h.0),
    services-IsServed ops d service recs sub h.1 k.1,
  )

  -- A specification inferred from traffic whose methods have no space in them, checked against the
  -- same traffic, misses none of its endpoints.
  pub check-infer :
      (ops : Floats F) (d : Decoders F) (service : Text) (recs : List Record)
      → All (λ rec. has_no_space rec.method ≡ true) recs
      → every is_known (check d.decode (infer ops d service recs) recs) ≡ true
  unfolding check
  check-infer ops d service recs h =
      let s = infer ops d service recs in
      let observed = observe d.decode recs [] in
      let keys =
        All-observe (IsServed s) d.decode recs []
          (services-IsServed ops d service recs recs (All-HasTally ops d [] recs) h) tt in
      let all =
        AreKnown-append _ _
          (AreKnown-check_keys s observed (sort_texts (map fst observed))
            (All-sort_texts (IsServed s) (map fst observed) keys))
          (AreKnown-check_unused s observed (sort_texts (map fst s.paths))) in
      every-sort_findings is_known _ all.known
