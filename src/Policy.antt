-- ===== src/Policy.antt =====
-- internal/engine/engine.go: the governance decision for one request.
use optictrace.Prelude.{
  ℤ, ℕ, ◌≤◌, ◌<◌, Bool, true, false, ◌||◌, ◌&&◌, List, Text, ltb, leb, if◌then◌else◌, ◌≡◌, ◌↔◌, ◌⊎◌,
  arith,
}
use optictrace.Redact.{JsonPath}
use optictrace.Label.{LabelSource}

-- The strings of config.CaptureField; validation refuses `other`.
pub data CaptureField : Type 0 where
  request_body response_body headers query : CaptureField
  other : Text → CaptureField

-- Durations are nanoseconds; a set of names is the list of its members.
pub record Policy (F : Type 0) : Type 0 where
  pub capture_request_body : Bool
  pub capture_response_body : Bool
  pub capture_headers : Bool
  pub capture_query : Bool
  pub capture_limit_bytes : ℤ
  pub redact_headers : List Text
  pub redact_query : List Text
  pub redact_json_paths : List JsonPath
  pub labels : List (Text × LabelSource)
  pub matched_rules : List Text
  pub route_pattern : Text
  pub sample_rate : F
  pub keep_errors : Bool
  pub keep_slower_than : ℕ
  pub meters : List (Text × List JsonPath)

module _ {F : Type 0} where
  unfoldable pub captures_anything : Policy F → Bool
  captures_anything p = p.capture_request_body || p.capture_response_body || p.capture_headers

  unfoldable pub tail_sampled : Policy F → Bool
  tail_sampled p = p.keep_errors || ltb 0 p.keep_slower_than

  unfoldable pub keep_body : Policy F → Bool → ℕ → ℕ → Bool
  keep_body p drew status elapsed =
      if drew
      then true
      else if p.keep_errors && leb 500 status
      then true
      else if ltb 0 p.keep_slower_than && leb p.keep_slower_than elapsed
      then true
      else false

  -- A body is kept exactly if the draw kept it, or errors are kept and the status is 500 or more,
  -- or a threshold is set and the request took at least that long.
  pub keep_body_iff :
      (p : Policy F) (drew : Bool) (status elapsed : ℕ)
      → (keep_body p drew status elapsed ≡ true) ↔ (
          (drew ≡ true)
          ⊎ (p.keep_errors ≡ true) × (500 ≤ status)
          ⊎ (0 < p.keep_slower_than) × (p.keep_slower_than ≤ elapsed))
  unfolding keep_body
  keep_body_iff p drew status elapsed = ground arith

  -- Without tail rules the draw alone decides.
  pub keep_body-tail_sampled :
      (p : Policy F) (drew : Bool) (status elapsed : ℕ)
      → tail_sampled p ≡ false
      → keep_body p drew status elapsed ≡ drew
  unfolding keep_body tail_sampled
  keep_body-tail_sampled p drew status elapsed h = ground arith
