-- ===== src/Engine/Governed.antt =====
-- New, evaluate and RedactJSONBody of internal/engine: from the rules to the stored body.
use optictrace.Prelude.{
  subst, true, List, [], ◌∷◌, ◌++◌, Text, All, All-imp, map, ◌≡◌, ◌≢◌, Bool-cases, inl, inr, some,
}
use optictrace.Floats.{Floats}
use optictrace.Json.{Value}
use optictrace.Redact.{JsonPath}
use optictrace.Redact.Addressed.{IsMaskedAt, shallow, shallow-IsMaskedAt}
use optictrace.Redact.Reached.{Redacted}
use optictrace.Config.Rules.{Rule}
use optictrace.Policy.{Policy}
use optictrace.Engine.{CompiledRule, Attrs, Defaults, applies, evaluate_attrs}
use optictrace.Engine.New.{Tools, compile_rule, new, redact_paths_nonempty}
use optictrace.Engine.Matched.{applicable, collected, evaluate_attrs_collects}
use optictrace.Engine.Body.{Codec, RoundTrips, redact_json_body, redact_json_body-IsGoverned}

module _ {ℓ κ} {A : Type ℓ} (P : A → Type κ) where
  All-append : (xs ys : List A) → All P xs → All P ys → All P (xs ++ ys)
  All-append [] ys h k = k
  All-append (x ∷ xs) ys (p, h) k = (p, All-append xs ys h k)

  All-append_inv : (xs ys : List A) → All P (xs ++ ys) → All P xs × All P ys
  All-append_inv [] ys h = (tt, h)
  All-append_inv (x ∷ xs) ys (p, h) = let (a, b) = All-append_inv xs ys h in ((p, a), b)

module _ {F : Type 0} (P : JsonPath → Type 0) where
  abbrev paths : CompiledRule F → List JsonPath
  paths r = r.redact_paths

  All-collected :
      (rs : List (CompiledRule F)) → All (λ r. All P (paths r)) rs → All P (collected paths rs)
  All-collected [] h = tt
  All-collected (r ∷ rs) (p, h) = All-append P (paths r) (collected paths rs) p (All-collected rs h)

  All-collected_inv :
      (rs : List (CompiledRule F)) → All P (collected paths rs) → All (λ r. All P (paths r)) rs
  All-collected_inv [] h = tt
  All-collected_inv (r ∷ rs) h =
      let (a, b) = All-append_inv P (paths r) (collected paths rs) h in (a, All-collected_inv rs b)

module _ {F : Type 0} (ops : Floats F) (t : Tools) (a : Attrs F) where
  applicable_nonempty :
      (rules : List (Rule F))
      → All
          (λ r. All (λ path. path ≢ []) r.redact_paths)
          (applicable ops t.canonical_key a (map (compile_rule t) rules))
  applicable_nonempty [] = tt
  applicable_nonempty (r ∷ rules) =
      elim (Bool-cases (applies ops t.canonical_key (compile_rule t r) a)) [
        | inl e ↦ rw e (redact_paths_nonempty t r, applicable_nonempty rules)
        | inr e ↦ rw e (applicable_nonempty rules)
      ]

  module _ (c : Codec F) (d : Defaults) (rules : List (Rule F)) where
    abbrev pub policy : Policy F
    policy = evaluate_attrs ops t.canonical_key (new t d rules) a

    abbrev pub applying : List (CompiledRule F)
    applying = applicable ops t.canonical_key a (new t d rules).rules

    policy_paths_nonempty : All (λ path. path ≢ []) policy.redact_json_paths
    policy_paths_nonempty =
        let (_, _, _, j) = evaluate_attrs_collects ops t.canonical_key a (new t d rules) in
        rw j (All-collected (λ path. path ≢ []) applying (unfold new in applicable_nonempty rules))

    -- For any configuration and request, if a non-empty body is stored as redacted JSON under a
    -- policy with paths, then what is stored decodes to a document in which every path that any
    -- applicable rule lists, but for those that end in `**`, addresses nothing but placeholders;
    -- JSON decoding is assumed to invert encoding.
    pub redact_json_body-new :
        (body out : Text)
        → RoundTrips c
        → body ≢ []
        → policy.redact_json_paths ≢ []
        → redact_json_body c policy body ≡ (out, true)
        → (doc : Value F) × (c.unmarshal out ≡ some doc)
          × All (λ r. All (λ path. IsMaskedAt path doc) (shallow r.redact_paths)) applying
    redact_json_body-new body out rt nb np h =
        let g = redact_json_body-IsGoverned c policy body out rt policy_paths_nonempty nb np h in
        let (_, _, _, j) = evaluate_attrs_collects ops t.canonical_key a (new t d rules) in
        (
          g.stored,
          g.encoded,
          All-imp (λ r. shallow-IsMaskedAt g.stored r.redact_paths) applying
              (All-collected_inv (λ path. Redacted path g.stored) applying
                (subst (All (λ path. Redacted path g.stored)) j g.all_redacted)),
        )
