-- ===== src/Engine/Matched.antt =====
-- internal/engine/engine.go, evaluate: the rules that shape a policy.
use optictrace.Prelude.{
  Bool, false, List, [], ◌∷◌, ◌++◌, append-nil, append_assoc, Text, Option, none, some, ◌≡◌, refl,
  sym, if◌then◌else◌, arith, ltb, ap, ◌∙◌, ℕ, if_cases,
}
use optictrace.Floats.{Floats}
use optictrace.Policy.{CaptureField, request_body, response_body, headers, query, other, Policy}
use optictrace.Redact.{JsonPath}
use optictrace.Label.{LabelSource}
use optictrace.Engine.{
  CompiledRule, Engine, Attrs, restrict_fields, restrict_field, merge_rule, applies, evaluate_rules,
  evaluate_attrs, initial_policy, insert_all, append_meters,
}

-- All of a policy that restricting a channel leaves alone.
pub record Decision (F : Type 0) : Type 0 where
  pub matched_rules : List Text
  pub route_pattern : Text
  pub sample_rate : F
  pub keep_errors : Bool
  pub keep_slower_than : ℕ
  pub redact_headers : List Text
  pub redact_query : List Text
  pub redact_json_paths : List JsonPath
  pub labels : List (Text × LabelSource)
  pub meters : List (Text × List JsonPath)

module _ {F : Type 0} where
  abbrev pub decision : Policy F → Decision F
  decision p = record {
    matched_rules = p.matched_rules;
    route_pattern = p.route_pattern;
    sample_rate = p.sample_rate;
    keep_errors = p.keep_errors;
    keep_slower_than = p.keep_slower_than;
    redact_headers = p.redact_headers;
    redact_query = p.redact_query;
    redact_json_paths = p.redact_json_paths;
    labels = p.labels;
    meters = p.meters;
  }

  decision-restrict_fields :
      (fs : List CaptureField) (p : Policy F) → decision (restrict_fields fs p) ≡ decision p
  decision-restrict_fields [] p = refl
  decision-restrict_fields (request_body ∷ fs) p =
      decision-restrict_fields fs (restrict_field request_body p)
  decision-restrict_fields (response_body ∷ fs) p =
      decision-restrict_fields fs (restrict_field response_body p)
  decision-restrict_fields (headers ∷ fs) p = decision-restrict_fields fs (restrict_field headers p)
  decision-restrict_fields (query ∷ fs) p = decision-restrict_fields fs (restrict_field query p)
  decision-restrict_fields (other s ∷ fs) p = decision-restrict_fields fs p

  abbrev merged : CompiledRule F → Policy F → Decision F
  merged r p = record {
    matched_rules = p.matched_rules ++ r.name ∷ [];
    route_pattern = r.raw_pattern;
    sample_rate = elim r.sample [ none ↦ p.sample_rate | some s ↦ s ];
    keep_errors = elim r.keep_errors [ none ↦ p.keep_errors | some b ↦ b ];
    keep_slower_than = if ltb 0 r.keep_slower then r.keep_slower else p.keep_slower_than;
    redact_headers = p.redact_headers ++ r.redact_hdrs;
    redact_query = p.redact_query ++ r.redact_query;
    redact_json_paths = p.redact_json_paths ++ r.redact_paths;
    labels = insert_all r.labels p.labels;
    meters = append_meters r.meters p.meters;
  }

  pub decision-merge_rule :
      (r : CompiledRule F) (p : Policy F) → decision (merge_rule r p) ≡ merged r p
  unfolding merge_rule
  decision-merge_rule r p = decision-restrict_fields r.restrict _

module _ {F : Type 0} where
  -- The last of the values that a list of rules gives, or the value from before.
  abbrev pub last_value {ℓ} :
      {A : Type ℓ} → (CompiledRule F → Option A) → List (CompiledRule F) → A → A
  last_value f [] old = old
  last_value f (r ∷ rs) old = last_value f rs (elim (f r) [ none ↦ old | some v ↦ v ])

  abbrev pub collected {ℓ} :
      {A : Type ℓ} → (CompiledRule F → List A) → List (CompiledRule F) → List A
  collected f [] = []
  collected f (r ∷ rs) = f r ++ collected f rs

  pub merge_all : List (CompiledRule F) → Policy F → Policy F
  merge_all [] p = p
  merge_all (r ∷ rs) p = merge_all rs (merge_rule r p)

  last_value-merge_all :
      {A : Type 0} (get : Policy F → A) (f : CompiledRule F → Option A)
      → ((r : CompiledRule F) (p : Policy F)
          → get (merge_rule r p) ≡ elim (f r) [ none ↦ get p | some v ↦ v ])
      → (rs : List (CompiledRule F)) (p : Policy F) → get (merge_all rs p) ≡ last_value f rs (get p)
  unfolding merge_all
  last_value-merge_all get f step [] p = refl
  last_value-merge_all get f step (r ∷ rs) p =
      last_value-merge_all get f step rs (merge_rule r p) ∙ ap (last_value f rs) (step r p)

  collected-merge_all :
      {A : Type 0} (get : Policy F → List A) (f : CompiledRule F → List A)
      → ((r : CompiledRule F) (p : Policy F) → get (merge_rule r p) ≡ get p ++ f r)
      → (rs : List (CompiledRule F)) (p : Policy F) → get (merge_all rs p) ≡ get p ++ collected f rs
  unfolding merge_all
  collected-merge_all get f step [] p = sym (append-nil (get p))
  collected-merge_all get f step (r ∷ rs) p =
      collected-merge_all get f step rs (merge_rule r p)
      ∙ ap (λ l. l ++ collected f rs) (step r p)
      ∙ append_assoc (get p) (f r) (collected f rs)

module _ {F : Type 0} (ops : Floats F) (canonical_key : Text → Text) (a : Attrs F) where
  -- The rules that apply to the request, in the order of the configuration.
  abbrev pub applicable : List (CompiledRule F) → List (CompiledRule F)
  applicable [] = []
  applicable (r ∷ rs) = if applies ops canonical_key r a then r ∷ applicable rs else applicable rs

  -- The loop merges the rules that apply, in order, and no other.
  pub evaluate_rules-applicable :
      (rs : List (CompiledRule F)) (p : Policy F)
      → evaluate_rules ops canonical_key rs a p ≡ merge_all (applicable rs) p
  unfolding evaluate_rules merge_all
  evaluate_rules-applicable [] p = refl
  evaluate_rules-applicable (r ∷ rs) p =
      if_cases
        (λ q.
          evaluate_rules ops canonical_key rs a
            (if applies ops canonical_key r a then merge_rule r p else p)
          ≡ merge_all q p)
        (applies ops canonical_key r a) _ _
        (λ e. rw e (evaluate_rules-applicable rs (merge_rule r p)))
        (λ e. rw e (evaluate_rules-applicable rs p))

  module _ (e : Engine F) where
    abbrev result : Policy F
    result = evaluate_attrs ops canonical_key e a

    abbrev matching : List (CompiledRule F)
    matching = applicable e.rules

    result_lem : result ≡ merge_all matching (initial_policy ops e.defaults)
    unfolding evaluate_attrs
    result_lem = evaluate_rules-applicable e.rules _

    decided :
        {A : Type 0} (get : Decision F → A)
        → get (decision result)
          ≡ get (decision (merge_all matching (initial_policy ops e.defaults)))
    decided get = ap (λ q. get (decision q)) result_lem

    last_decided :
        {A : Type 0} (get : Decision F → A) (f : CompiledRule F → Option A)
        → ((r : CompiledRule F) (p : Policy F)
            → get (merged r p) ≡ elim (f r) [ none ↦ get (decision p) | some v ↦ v ])
        → get (decision result)
          ≡ last_value f matching (get (decision (initial_policy ops e.defaults)))
    last_decided get f step =
        decided get
        ∙ last_value-merge_all (λ q. get (decision q)) f
            (λ r p. ap get (decision-merge_rule r p) ∙ step r p) matching _

    all_decided :
        {A : Type 0} (get : Decision F → List A) (f : CompiledRule F → List A)
        → ((r : CompiledRule F) (p : Policy F) → get (merged r p) ≡ get (decision p) ++ f r)
        → get (decision result)
          ≡ get (decision (initial_policy ops e.defaults)) ++ collected f matching
    all_decided get f step =
        decided get
        ∙ collected-merge_all (λ q. get (decision q)) f
            (λ r p. ap get (decision-merge_rule r p) ∙ step r p) matching _

    -- A policy lists the names of the rules that apply, in order, and collects all their
    -- redactions of headers, query parameters and JSON paths.
    pub evaluate_attrs_collects :
        (result.matched_rules ≡ collected (λ r. r.name ∷ []) matching)
        × (result.redact_headers ≡ collected (λ r. r.redact_hdrs) matching)
        × (result.redact_query ≡ collected (λ r. r.redact_query) matching)
        × (result.redact_json_paths ≡ collected (λ r. r.redact_paths) matching)
    unfolding initial_policy
    evaluate_attrs_collects = (
      all_decided (λ d. d.matched_rules) (λ r. r.name ∷ []) (λ r p. refl),
      all_decided (λ d. d.redact_headers) (λ r. r.redact_hdrs) (λ r p. refl),
      all_decided (λ d. d.redact_query) (λ r. r.redact_query) (λ r p. refl),
      all_decided (λ d. d.redact_json_paths) (λ r. r.redact_paths) (λ r p. refl),
    )

    abbrev pub threshold : CompiledRule F → Option ℕ
    threshold r = if ltb 0 r.keep_slower then some r.keep_slower else none

    threshold_step :
        (r : CompiledRule F) (p : Policy F)
        → (if ltb 0 r.keep_slower then r.keep_slower else p.keep_slower_than)
          ≡ elim (threshold r) [ none ↦ p.keep_slower_than | some v ↦ v ]
    threshold_step r p = ground arith

    -- For the route pattern, the sample rate and the two tail settings the last applicable rule
    -- that sets one wins, and otherwise the initial value stays.
    pub evaluate_attrs_overrides :
        (result.route_pattern ≡ last_value (λ r. some r.raw_pattern) matching [])
        × (result.sample_rate ≡ last_value (λ r. r.sample) matching ops.one_value)
        × (result.keep_errors ≡ last_value (λ r. r.keep_errors) matching false)
        × (result.keep_slower_than ≡ last_value threshold matching 0)
    unfolding initial_policy
    evaluate_attrs_overrides = (
      last_decided (λ d. d.route_pattern) (λ r. some r.raw_pattern) (λ r p. refl),
      last_decided (λ d. d.sample_rate) (λ r. r.sample) (λ r p. refl),
      last_decided (λ d. d.keep_errors) (λ r. r.keep_errors) (λ r p. refl),
      last_decided (λ d. d.keep_slower_than) threshold threshold_step,
    )
