-- ===== src/Engine/Body.antt =====
-- internal/engine/redact.go: what is stored of a body.
use optictrace.Prelude.{
  Bool, true, false, ◌||◌, List, [], ◌∷◌, Text, All, ◌≡◌, ◌≢◌, refl, if◌then◌else◌, arith,
  Bool-cases, inl, inr, Option, none, some, is_empty, ap, ◌∙◌,
}
use optictrace.Json.{Value}
use optictrace.Redact.{JsonPath, redact_path}
use optictrace.Redact.Reached.{Redacted}
use optictrace.Redact.Masks.{redact_path-Masks, Masks, Masks-trans, keep}
use optictrace.Redact.Complete.{redact_path-Redacted}
use optictrace.Redact.Stays.{Masks-Redacted}
use optictrace.Policy.{Policy}

-- encoding/json over a type of numbers.
pub record Codec (F : Type 0) : Type 0 where
  pub valid : Text → Bool
  pub unmarshal : Text → Option (Value F)
  pub marshal : Value F → Option Text

-- What is documented of it: a marshalled document decodes to itself.
pub record RoundTrips {F : Type 0} (c : Codec F) : Type 0 where
  pub decodes : (v : Value F) (t : Text) → c.marshal v ≡ some t → c.unmarshal t ≡ some v

module _ {F : Type 0} where
  -- `for _, path := range p.RedactJSONPaths { doc = redactPath(doc, path) }`
  unfoldable pub redact_paths : List JsonPath → Value F → Value F
  unfolding redact_path
  redact_paths [] doc = doc
  redact_paths (path ∷ paths) doc = redact_paths paths (redact_path doc path)

  redact_paths-Masks : (paths : List JsonPath) (v : Value F) → Masks v (redact_paths paths v)
  unfolding redact_paths
  redact_paths-Masks [] v = keep v
  redact_paths-Masks (path ∷ paths) v =
      Masks-trans (redact_path-Masks v path) (redact_paths-Masks paths (redact_path v path))

  -- After the loop every path of the policy is redacted: a later path undoes no earlier one.
  pub redact_paths-Redacted :
      (paths : List JsonPath) (v : Value F)
      → All (λ path. path ≢ []) paths
      → All (λ path. Redacted path (redact_paths paths v)) paths
  unfolding redact_paths
  redact_paths-Redacted [] v h = tt
  redact_paths-Redacted (path ∷ paths) v (ne, h) = (
    Masks-Redacted path (redact_path v path) _ (redact_paths-Masks paths (redact_path v path))
        (redact_path-Redacted v path ne),
    redact_paths-Redacted paths (redact_path v path) h,
  )

is_empty-eq {ℓ} : {A : Type ℓ} (xs : List A) → is_empty xs ≡ true → xs ≡ []
is_empty-eq [] h = refl
is_empty-eq (x ∷ xs) h = cc

module _ {F : Type 0} (c : Codec F) where
  abbrev pub marshalled : Text → Option Text → Text × Bool
  marshalled body none = (body, false)
  marshalled body (some out) = (out, true)

  abbrev pub redact_decoded : Policy F → Text → Option (Value F) → Text × Bool
  redact_decoded p body none = (body, false)
  redact_decoded p body (some doc) =
      marshalled body (c.marshal (redact_paths p.redact_json_paths doc))

  unfoldable pub redact_json_body : Policy F → Text → Text × Bool
  unfolding redact_paths
  redact_json_body p body =
      if is_empty body || is_empty p.redact_json_paths
      then (if c.valid body then (body, true) else (body, false))
      else redact_decoded p body (c.unmarshal body)

  -- A stored document that stands for `out`: what the body decodes to, with every path masked.
  pub record IsGoverned (p : Policy F) (body out : Text) : Type 0 where
    pub source : Value F
    pub stored : Value F
    pub decoded : c.unmarshal body ≡ some source
    pub encoded : c.unmarshal out ≡ some stored
    pub only_masked : Masks source stored
    pub all_redacted : All (λ path. Redacted path stored) p.redact_json_paths

  marshalled-IsGoverned :
      (p : Policy F) (body out : Text) (v : Value F) (t : Option Text)
      → RoundTrips c
      → All (λ path. path ≢ []) p.redact_json_paths
      → c.unmarshal body ≡ some v
      → c.marshal (redact_paths p.redact_json_paths v) ≡ t
      → marshalled body t ≡ (out, true)
      → IsGoverned p body out
  marshalled-IsGoverned p body out v none rt ne d m h = absurd (ground arith)
  marshalled-IsGoverned p body out v (some t) rt ne d m h = record {
    source = v;
    stored = redact_paths p.redact_json_paths v;
    decoded = d;
    encoded = rt.decodes _ out (m ∙ ap (λ q. some q.0) h);
    only_masked = redact_paths-Masks p.redact_json_paths v;
    all_redacted = redact_paths-Redacted p.redact_json_paths v ne;
  }

  decoded-IsGoverned :
      (p : Policy F) (body out : Text) (o : Option (Value F))
      → RoundTrips c
      → All (λ path. path ≢ []) p.redact_json_paths
      → c.unmarshal body ≡ o
      → redact_decoded p body o ≡ (out, true)
      → IsGoverned p body out
  decoded-IsGoverned p body out none rt ne d h = absurd (ground arith)
  decoded-IsGoverned p body out (some v) rt ne d h =
      marshalled-IsGoverned p body out v _ rt ne d refl h

  -- If a non-empty body is reported as redacted under a policy with paths, none of them empty,
  -- then the stored text decodes to the document of the body with only placeholders put in and
  -- with every path of the policy masked; JSON decoding is assumed to invert encoding.
  pub redact_json_body-IsGoverned :
      (p : Policy F) (body out : Text)
      → RoundTrips c
      → All (λ path. path ≢ []) p.redact_json_paths
      → body ≢ []
      → p.redact_json_paths ≢ []
      → redact_json_body p body ≡ (out, true)
      → IsGoverned p body out
  unfolding redact_json_body
  redact_json_body-IsGoverned p [] out rt ne nb np h = absurd (nb refl)
  redact_json_body-IsGoverned p (b ∷ bs) out rt ne nb np h =
      elim (Bool-cases (is_empty p.redact_json_paths)) [
        | inl e ↦ absurd (np (is_empty-eq p.redact_json_paths e))
        | inr e ↦ decoded-IsGoverned p (b ∷ bs) out _ rt ne refl (rw e at h)
      ]

  -- A body that is not reported as redacted is handed back unchanged.
  pub redact_json_body_refused :
      (p : Policy F) (body out : Text) → redact_json_body p body ≡ (out, false) → out ≡ body
  unfolding redact_json_body
  redact_json_body_refused p body out h = ground arith
