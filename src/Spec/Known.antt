-- ===== src/Spec/Known.antt =====
-- internal/spec/check.go: which keys of recorded traffic a check reports as missing.
use optictrace.Prelude.{
  Bool, true, false, not, Option, none, some, List, [], ◌∷◌, ◌++◌, Text, lookup, insert, map, beq,
  All, every, to_upper, sort_texts, insert_text, text_le, any, is_empty, ◌==◌, ◌≡◌, refl, arith,
  if_cases,
}
use optictrace.Json.{Value}
use optictrace.Config.{cut}
use optictrace.Config.Rules.{is_some}
use optictrace.Spec.{Operation, Document}
use optictrace.Spec.Infer.{Record, fst}
use optictrace.Spec.Fields.{match_path}
use optictrace.Spec.Uses.{FieldUse, use_of}
use optictrace.Spec.Check.{
  Severity, Kind, endpoint_missing, request_field_missing, response_field_undocumented, Finding,
  Usage, space, usage_key, findings_for, field_findings, sort_findings, insert_finding,
  field_finding, response_fields_of, observe, find_operation, findings_at, check_key, check_keys,
  check_unused, unused_at, usage_of, covers, operations_of,
}

abbrev pub is_missing : Kind → Bool
is_missing endpoint_missing = true
is_missing _ = false

abbrev pub is_known : Finding → Bool
is_known f = not (is_missing f.kind)

-- Go writes a method and a path with one space between them, and cuts there.
abbrev pub has_no_space : Text → Bool
has_no_space m = every (λ c. not (c == space)) m

pub cut-append : (m p : Text) → has_no_space m ≡ true → cut space (m ++ space ∷ p) ≡ (m, some p)
unfolding cut
cut-append [] p h = refl
cut-append (c ∷ m) p h = ground (arith, cut-append m p)

-- Findings none of which is that an endpoint is missing.
pub record AreKnown (fs : List Finding) : Type 0 where
  pub known : every is_known fs ≡ true

pub AreKnown-append : (xs ys : List Finding) → AreKnown xs → AreKnown ys → AreKnown (xs ++ ys)
AreKnown-append [] ys h k = k
AreKnown-append (x ∷ xs) ys h k =
    let rest = AreKnown-append xs ys (record { known = ground (arith, h.known) }) k in
    record { known = ground (arith, h.known, rest.known) }

every-insert_finding :
    (p : Finding → Bool) (f : Finding) (fs : List Finding)
    → p f ≡ true
    → every p fs ≡ true
    → every p (insert_finding f fs) ≡ true
every-insert_finding p f [] h k = ground (arith, h)
every-insert_finding p f (g ∷ fs) h k = ground (arith, h, every-insert_finding p f fs h)

pub every-sort_findings :
    (p : Finding → Bool) (fs : List Finding) → every p fs ≡ true → every p (sort_findings fs) ≡ true
unfolding sort_findings
every-sort_findings p [] h = refl
every-sort_findings p (f ∷ fs) h =
    every-insert_finding p f (sort_findings fs) (ground (arith, h))
      (every-sort_findings p fs (ground (arith, h)))

-- A property of all keys of a map, after a write, and in sorted order.
module _ {V : Type 0} (P : Text → Type 0) where
  All-insert :
      (k : Text) (v : V) (m : List (Text × V))
      → P k
      → All P (map fst m)
      → All P (map fst (insert k v m))
  unfolding insert
  All-insert k v [] p h = (p, tt)
  All-insert k v ((j, w) ∷ m) p h =
      if_cases (λ (x : List (Text × V)). All P (map fst x)) (beq j k) _ _ (λ e. h)
        (λ e. (h.0, All-insert k v m p h.1))

module _ (P : Text → Type 0) where
  All-insert_text : (s : Text) (ts : List Text) → P s → All P ts → All P (insert_text s ts)
  All-insert_text s [] p h = (p, tt)
  All-insert_text s (t ∷ ts) p h =
      if_cases (All P) (text_le s t) _ _ (λ e. (p, h)) (λ e. (h.0, All-insert_text s ts p h.1))

  pub All-sort_texts : (ts : List Text) → All P ts → All P (sort_texts ts)
  unfolding sort_texts
  All-sort_texts [] h = h
  All-sort_texts (s ∷ ts) h = All-insert_text s (sort_texts ts) h.0 (All-sort_texts ts h.1)

every-findings_for :
    (used : List (Text × FieldUse)) (spec : List Text) (finding : Text → FieldUse → Finding)
    (fields : List Text)
    → ((f : Text) (u : FieldUse) → is_known (finding f u) ≡ true)
    → every is_known (findings_for used spec finding fields) ≡ true
every-findings_for used spec finding [] h = refl
every-findings_for used spec finding (f ∷ fields) h =
    ground (arith, h f (use_of (lookup f used)), every-findings_for used spec finding fields h)

every-field_findings :
    (used : List (Text × FieldUse)) (spec : List Text) (severity : Severity) (kind : Kind)
    (method path : Text)
    → is_missing kind ≡ false
    → every is_known (field_findings used spec severity kind method path) ≡ true
unfolding field_findings
every-field_findings used spec severity kind method path h =
    every-findings_for used spec (field_finding severity kind method path)
      (sort_texts (map fst used)) (λ f u. rw h refl)

AreKnown-field_findings :
    (used : List (Text × FieldUse)) (spec : List Text) (severity : Severity) (kind : Kind)
    (method path : Text)
    → is_missing kind ≡ false
    → AreKnown (field_findings used spec severity kind method path)
AreKnown-field_findings used spec severity kind method path h = record {
  known = every-field_findings used spec severity kind method path h;
}

module _ {F : Type 0} where
  AreKnown-findings_at :
      (s : Document F) (method path : Text) (u : Usage) (o : Option (Text × Operation F))
      → is_some o ≡ true
      → AreKnown (findings_at s method path u o)
  AreKnown-findings_at s method path u none h = cc
  AreKnown-findings_at s method path u (some (tmpl, op)) h =
      AreKnown-append _ _ (AreKnown-field_findings _ _ _ request_field_missing method tmpl refl) (
        if_cases AreKnown (is_empty (response_fields_of s op op.responses)) _ _
          (λ e. record { known = refl })
          (λ e. AreKnown-field_findings _ _ _ response_field_undocumented method tmpl refl))

  AreKnown-unused_at :
      (observed : List (Text × Usage)) (tmpl : Text) (ops : List (Text × Operation F))
      → AreKnown (unused_at observed tmpl ops)
  AreKnown-unused_at observed tmpl [] = record { known = refl }
  AreKnown-unused_at observed tmpl ((method, op) ∷ ops) =
      let rest = AreKnown-unused_at observed tmpl ops in
      if_cases AreKnown (any (covers (to_upper method) tmpl) observed) _ _ (λ e. rest)
        (λ e. record { known = rest.known })

  pub AreKnown-check_unused :
      (s : Document F) (observed : List (Text × Usage)) (paths : List Text)
      → AreKnown (check_unused s observed paths)
  AreKnown-check_unused s observed [] = record { known = refl }
  AreKnown-check_unused s observed (tmpl ∷ paths) =
      AreKnown-append _ _ (AreKnown-unused_at observed tmpl (operations_of (lookup tmpl s.paths)))
        (AreKnown-check_unused s observed paths)

  -- A key that names an operation of the document, so that no check reports it as missing.
  abbrev pub IsServed : Document F → Text → Type 0
  IsServed s key = (observed : List (Text × Usage)) → AreKnown (check_key s observed key)

  pub served :
      (s : Document F) (m p : Text)
      → has_no_space m ≡ true
      → is_some (find_operation s m (match_path s p)) ≡ true
      → IsServed s (m ++ space ∷ p)
  unfolding check_key
  served s m p h f observed = rw (cut-append m p h) (
      AreKnown-findings_at s m p (usage_of (lookup (m ++ space ∷ p) observed))
        (find_operation s m (match_path s p)) f)

  pub AreKnown-check_keys :
      (s : Document F) (observed : List (Text × Usage)) (keys : List Text)
      → All (IsServed s) keys
      → AreKnown (check_keys s observed keys)
  AreKnown-check_keys s observed [] h = record { known = refl }
  AreKnown-check_keys s observed (key ∷ keys) h =
      AreKnown-append _ _ (h.0 observed) (AreKnown-check_keys s observed keys h.1)

  module _ (P : Text → Type 0) where
    pub All-observe :
        (decode : Text → Option (Value F)) (recs : List Record) (observed : List (Text × Usage))
        → All (λ rec. P (usage_key rec)) recs
        → All P (map fst observed)
        → All P (map fst (observe decode recs observed))
    unfolding observe
    All-observe decode [] observed h k = k
    All-observe decode (rec ∷ recs) observed h k =
        All-observe decode recs _ h.1 (All-insert P (usage_key rec) _ observed h.0 k)
