-- ===== src/Engine/Validated.antt =====
-- Rule.validate of internal/config/config.go beside New of internal/engine/engine.go.
use optictrace.Prelude.{
  Bool, true, Option, none, some, List, [], ◌∷◌, Text, every, All, lookup, insert, lookup-insert,
  beq_refl, ◌≡◌, refl, arith,
}
use optictrace.Label.{LabelSource}
use optictrace.Config.{Parsed, ok, err, parse_label_source, Compiled}
use optictrace.Config.Rules.{Rule, Checks, validate, is_some, is_ok, labels_valid, body_error}
use optictrace.Engine.{Regexp}
use optictrace.Engine.New.{Tools, compile_criteria, compile_labels, compile_rule}

is_some-insert :
    {V : Type 0} (k j : Text) (v : V) (m : List (Text × V))
    → is_some (lookup j m) ≡ true
    → is_some (lookup j (insert k v m)) ≡ true
is_some-insert k j v m h = rw (lookup-insert k j v m) (ground arith)

is_some-insert_self :
    {V : Type 0} (k : Text) (v : V) (m : List (Text × V)) → is_some (lookup k (insert k v m)) ≡ true
is_some-insert_self k v m = rw (lookup-insert k k v m, beq_refl k)

module _ (compile : Text → Option Compiled) where
  compile_labels_keeps :
      (j : Text) (m : List (Text × Text)) (out : List (Text × LabelSource))
      → is_some (lookup j out) ≡ true
      → is_some (lookup j (compile_labels compile m out)) ≡ true
  compile_labels_keeps j [] out h = h
  compile_labels_keeps j ((k, src) ∷ m) out h =
      compile_labels_keeps j m _ (kept (parse_label_source compile src))
    where
      kept :
          (p : Parsed)
          → is_some (lookup j (elim p [ err e ↦ out | ok ls ↦ insert k ls out ])) ≡ true
      kept (ok ls) = is_some-insert k j ls out h
      kept (err e) = h

  compile_labels-All :
      (m : List (Text × Text)) (out : List (Text × LabelSource))
      → every (λ e. is_ok (parse_label_source compile e.1)) m ≡ true
      → All (λ e. is_some (lookup e.0 (compile_labels compile m out)) ≡ true) m
  compile_labels-All [] out h = tt
  compile_labels-All ((k, src) ∷ m) out h = (
    compile_labels_keeps k m _ (added (parse_label_source compile src) (ground arith)),
    compile_labels-All m _ (ground arith),
  )
    where
      added :
          (p : Parsed)
          → is_ok p ≡ true
          → is_some (lookup k (elim p [ err e ↦ out | ok ls ↦ insert k ls out ])) ≡ true
      added (ok ls) q = is_some-insert_self k ls out
      added (err e) q = absurd (ground arith)

module _ (compile : Text → Option Regexp) (key : Text → Text) where
  compile_criteria_keeps :
      (j : Text) (m : List (Text × Text)) (out : List (Text × Regexp))
      → is_some (lookup j out) ≡ true
      → is_some (lookup j (compile_criteria compile key m out)) ≡ true
  compile_criteria_keeps j [] out h = h
  compile_criteria_keeps j ((n, pat) ∷ m) out h = compile_criteria_keeps j m _ (kept (compile pat))
    where
      kept :
          (o : Option Regexp)
          → is_some (lookup j (elim o [ none ↦ out | some re ↦ insert (key n) re out ])) ≡ true
      kept none = h
      kept (some re) = is_some-insert (key n) j re out h

  compile_criteria-All :
      (m : List (Text × Text)) (out : List (Text × Regexp))
      → every (λ e. is_some (compile e.1)) m ≡ true
      → All (λ e. is_some (lookup (key e.0) (compile_criteria compile key m out)) ≡ true) m
  compile_criteria-All [] out h = tt
  compile_criteria-All ((n, pat) ∷ m) out h = (
    compile_criteria_keeps (key n) m _ (added (compile pat) (ground arith)),
    compile_criteria-All m _ (ground arith),
  )
    where
      added :
          (o : Option Regexp)
          → is_some o ≡ true
          → is_some (lookup (key n) (elim o [ none ↦ out | some re ↦ insert (key n) re out ]))
            ≡ true
      added none q = absurd (ground arith)
      added (some re) q = is_some-insert_self (key n) re out

-- Validation and `New` use the same regexp.Compile and time.ParseDuration.
abbrev pub checks_of : {F : Type 0} → Tools → (F → Bool) → Checks F
checks_of t in_unit_range = record {
  compiles = λ pat. is_some (t.compile pat);
  compile_group = t.compile_group;
  in_unit_range = in_unit_range;
  parse_duration = t.parse_duration;
}

module _ {F : Type 0} (k : Checks F) where
  record Passed (r : Rule F) : Type 0 where
    labels : labels_valid k r.labels ≡ true
    body : body_error k r.match.body ≡ none
    headers : every (λ e. k.compiles e.1) r.match.headers ≡ true
    query : every (λ e. k.compiles e.1) r.match.query ≡ true

  validate-Passed : (r : Rule F) → validate k r ≡ none → Passed r
  unfolding validate
  validate-Passed r h = record {
    labels = ground arith;
    body = ground arith;
    headers = ground arith;
    query = ground arith;
  }

  body_error-none :
      (m : List (Text × Text)) → body_error k m ≡ none → every (λ e. k.compiles e.1) m ≡ true
  body_error-none [] h = refl
  body_error-none ((name, pat) ∷ m) h = ground (arith, body_error-none m)

-- A rule that passes validation loses nothing when compiled: each of its labels has a source and
-- each header, query and body condition a criterion.
pub validate-compile_rule :
    {F : Type 0} (t : Tools) (in_unit_range : F → Bool) (r : Rule F)
    → validate (checks_of t in_unit_range) r ≡ none
    → All (λ e. is_some (lookup e.0 (compile_rule t r).labels) ≡ true) r.labels
      × All
          (λ e. is_some (lookup (t.canonical_key e.0) (compile_rule t r).hdr_criteria) ≡ true)
          r.match.headers
      × All (λ e. is_some (lookup e.0 (compile_rule t r).qry_criteria) ≡ true) r.match.query
      × All (λ e. is_some (lookup e.0 (compile_rule t r).body_criteria) ≡ true) r.match.body
unfolding compile_rule
validate-compile_rule t in_unit_range r h =
    let p = validate-Passed (checks_of t in_unit_range) r h in
    (
      compile_labels-All t.compile_group r.labels [] p.labels,
      compile_criteria-All t.compile t.canonical_key r.match.headers [] p.headers,
      compile_criteria-All t.compile (λ name. name) r.match.query [] p.query,
      compile_criteria-All t.compile (λ jp. jp) r.match.body []
          (body_error-none (checks_of t in_unit_range) r.match.body p.body),
    )
