-- ===== src/Engine/Capture.antt =====
-- internal/engine/engine.go, evaluate: the channels that a policy captures.
use optictrace.Prelude.{
  Bool, true, false, not, ◌&&◌, List, [], ◌∷◌, Text, any, ◌≡◌, refl, arith, Bool-cases, inl, inr,
}
use optictrace.Floats.{Floats}
use optictrace.Policy.{CaptureField, request_body, response_body, headers, query, other, Policy}
use optictrace.Engine.{
  CompiledRule, Engine, Attrs, Defaults, flag, restrict_field, restrict_fields, merge_rule, applies,
  evaluate_rules, evaluate_attrs,
}

abbrev pub same_field : CaptureField → CaptureField → Bool
same_field request_body request_body = true
same_field response_body response_body = true
same_field headers headers = true
same_field query query = true
same_field _ _ = false

abbrev pub default_flag : CaptureField → Defaults → Bool
default_flag request_body d = flag d.capture.request_body
default_flag response_body d = flag d.capture.response_body
default_flag headers d = flag d.capture.headers
default_flag query d = flag d.capture.query
default_flag (other s) d = false

module _ {F : Type 0} where
  abbrev pub captures : CaptureField → Policy F → Bool
  captures request_body p = p.capture_request_body
  captures response_body p = p.capture_response_body
  captures headers p = p.capture_headers
  captures query p = p.capture_query
  captures (other s) p = false

  captures-restrict_field :
      (f g : CaptureField) (p : Policy F)
      → captures f (restrict_field g p) ≡ (captures f p && not (same_field f g))
  captures-restrict_field request_body g p = ground arith
  captures-restrict_field response_body g p = ground arith
  captures-restrict_field headers g p = ground arith
  captures-restrict_field query g p = ground arith
  captures-restrict_field (other s) g p = refl

  captures-restrict_fields :
      (f : CaptureField) (gs : List CaptureField) (p : Policy F)
      → captures f (restrict_fields gs p) ≡ (captures f p && not (any (same_field f) gs))
  captures-restrict_fields f [] p = ground arith
  captures-restrict_fields f (g ∷ gs) p =
      ground
        (arith, captures-restrict_fields f gs (restrict_field g p), captures-restrict_field f g p)

  captures-merge_rule :
      (f : CaptureField) (r : CompiledRule F) (p : Policy F)
      → captures f (merge_rule r p) ≡ (captures f p && not (any (same_field f) r.restrict))
  unfolding merge_rule
  captures-merge_rule request_body r p = captures-restrict_fields request_body r.restrict _
  captures-merge_rule response_body r p = captures-restrict_fields response_body r.restrict _
  captures-merge_rule headers r p = captures-restrict_fields headers r.restrict _
  captures-merge_rule query r p = captures-restrict_fields query r.restrict _
  captures-merge_rule (other s) r p = refl

module _ {F : Type 0} (ops : Floats F) (canonical_key : Text → Text) (a : Attrs F) where
  -- Some rule that applies to the request restricts the field.
  abbrev pub restricted : CaptureField → List (CompiledRule F) → Bool
  restricted f rs = any (λ r. applies ops canonical_key r a && any (same_field f) r.restrict) rs

  captures-evaluate_rules :
      (f : CaptureField) (rs : List (CompiledRule F)) (p : Policy F)
      → captures f (evaluate_rules ops canonical_key rs a p)
        ≡ (captures f p && not (restricted f rs))
  unfolding evaluate_rules
  captures-evaluate_rules f [] p = ground arith
  captures-evaluate_rules f (r ∷ rs) p = elim (Bool-cases (applies ops canonical_key r a)) [
    | inl e ↦
        rw (e, captures-evaluate_rules f rs (merge_rule r p), captures-merge_rule f r p)
          (ground arith)
    | inr e ↦ rw (e, captures-evaluate_rules f rs p) (ground arith)
  ]

  -- A channel is captured exactly if the defaults capture it and no rule that applies to the
  -- request restricts it.
  pub captures-evaluate_attrs :
      (e : Engine F) (f : CaptureField)
      → captures f (evaluate_attrs ops canonical_key e a)
        ≡ (default_flag f e.defaults && not (restricted f e.rules))
  unfolding evaluate_attrs
  captures-evaluate_attrs e request_body = captures-evaluate_rules request_body e.rules _
  captures-evaluate_attrs e response_body = captures-evaluate_rules response_body e.rules _
  captures-evaluate_attrs e headers = captures-evaluate_rules headers e.rules _
  captures-evaluate_attrs e query = captures-evaluate_rules query e.rules _
  captures-evaluate_attrs e (other s) = refl
