-- ===== src/Spec/Missing.antt =====
-- internal/spec/check.go: an endpoint that carries traffic and is not in the document.
use optictrace.Prelude.{
  Bool, true, ◌||◌, Option, none, List, [], ◌∷◌, ◌++◌, Text, lookup, insert, map, beq, beq_iff,
  contains, contains-sort_texts, any, any-append, sort_texts, ◌≡◌, refl, arith, ◌∙◌, ap,
}
use optictrace.Json.{Value}
use optictrace.Spec.{Document}
use optictrace.Spec.Paths.{open_api_path}
use optictrace.Spec.Infer.{Record, fst}
use optictrace.Spec.Fields.{match_path}
use optictrace.Spec.Check.{
  Finding, Usage, space, usage_key, sort_findings, insert_finding, observe, used_by, usage_of,
  find_operation, check_key, check_keys, check_unused, check, has_breaking, is_breaking,
}
use optictrace.Spec.Known.{has_no_space, cut-append}

any-insert_finding :
    (p : Finding → Bool) (f : Finding) (fs : List Finding)
    → any p (insert_finding f fs) ≡ (p f || any p fs)
any-insert_finding p f [] = refl
any-insert_finding p f (g ∷ fs) = ground (arith, any-insert_finding p f fs)

any-sort_findings : (p : Finding → Bool) (fs : List Finding) → any p (sort_findings fs) ≡ any p fs
unfolding sort_findings
any-sort_findings p [] = refl
any-sort_findings p (f ∷ fs) =
    any-insert_finding p f (sort_findings fs) ∙ ap (λ (b : Bool). p f || b) (any-sort_findings p fs)

module _ {V : Type 0} where
  contains-insert :
      (k : Text) (v : V) (m : List (Text × V)) (j : Text)
      → contains (map fst (insert k v m)) j ≡ (beq j k || contains (map fst m) j)
  unfolding insert contains
  contains-insert k v [] j = refl
  contains-insert k v ((i, w) ∷ m) j =
      ground (arith, beq_iff i k, beq_iff j k, beq_iff j i, contains-insert k v m j)

module _ {F : Type 0} (decode : Text → Option (Value F)) where
  -- Every key that was observed, or is that of a record.
  contains-observe :
      (recs : List Record) (observed : List (Text × Usage)) (k : Text)
      → contains (map fst (observe decode recs observed)) k
        ≡ (contains (map fst observed) k || any (λ rec. beq k (usage_key rec)) recs)
  unfolding observe
  contains-observe [] observed k = ground arith
  contains-observe (rec ∷ recs) observed k =
      let u = used_by decode rec (usage_of (lookup (usage_key rec) observed)) in
      ground (
        arith,
        contains-observe recs (insert (usage_key rec) u observed) k,
        contains-insert (usage_key rec) u observed k,
      )

  any-check_keys :
      (s : Document F) (observed : List (Text × Usage)) (keys : List Text) (k : Text)
      → contains keys k ≡ true
      → has_breaking (check_key s observed k) ≡ true
      → has_breaking (check_keys s observed keys) ≡ true
  unfolding has_breaking contains
  any-check_keys s observed [] k h b = cc
  any-check_keys s observed (key ∷ keys) k h b = ground (
    arith,
    beq_iff k key,
    b,
    any-check_keys s observed keys k,
    any-append is_breaking (check_key s observed key) (check_keys s observed keys),
  )

  check_key-missing :
      (s : Document F) (observed : List (Text × Usage)) (method path : Text)
      → has_no_space method ≡ true
      → find_operation s method (match_path s path) ≡ none
      → has_breaking (check_key s observed (method ++ space ∷ path)) ≡ true
  unfolding check_key has_breaking
  check_key-missing s observed method path h n = rw (cut-append method path h, n) refl

  -- If the specification has no operation for the method, without a space, and the template path
  -- of some record, or of a record with the same key, the check has a breaking finding.
  pub has_breaking-check :
      (s : Document F) (recs : List Record) (rec : Record)
      → any (λ r. beq (usage_key rec) (usage_key r)) recs ≡ true
      → has_no_space rec.method ≡ true
      → find_operation s rec.method (match_path s (open_api_path rec.path)) ≡ none
      → has_breaking (check decode s recs) ≡ true
  unfolding check has_breaking usage_key contains
  has_breaking-check s recs rec m h n =
      let observed = observe decode recs [] in
      let keys = sort_texts (map fst observed) in
      let live =
        contains-sort_texts (map fst observed) (usage_key rec)
        ∙ contains-observe recs [] (usage_key rec)
        ∙ m in
      let found =
        any-check_keys s observed keys (usage_key rec) live
          (check_key-missing s observed rec.method (open_api_path rec.path) h n) in
      any-sort_findings is_breaking _
      ∙ any-append is_breaking (check_keys s observed keys)
          (check_unused s observed (sort_texts (map fst s.paths)))
      ∙ ap
          (λ (b : Bool).
            b || any is_breaking (check_unused s observed (sort_texts (map fst s.paths))))
          found
