-- ===== src/Review/Remarks.antt =====
-- internal/review/review.go, diffPolicies: which remarks on one record are blocking.
use optictrace.Prelude.{
  Bool, true, false, not, ◌&&◌, ◌||◌, List, [], ◌∷◌, ◌++◌, Text, codes, beq, beq_iff, contains, any,
  any-append, map, join_by, ◌≡◌, refl, ap, ◌∙◌, arith, Bool-cases, inl, inr,
}
use optictrace.Config.{dot}
use optictrace.Policy.{Policy}
use optictrace.Review.Diff.{
  Severity, blocking, warn, info, Remark, distinct, path_set, remarks_for, flag_remarks,
  capture_remarks, redaction_remarks, other_remarks, remarks_of, keys_of,
}
use optictrace.Review.Verdict.{is_blocking}

any-contains :
    (f : Text → Bool) (x : Text) (xs : List Text)
    → contains xs x ≡ true
    → f x ≡ true
    → any f xs ≡ true
unfolding contains
any-contains f x [] h e = absurd (ground arith)
any-contains f x (y ∷ ys) h e = elim (Bool-cases (beq x y)) [
  | inl q ↦
      let same : x ≡ y = (beq_iff x y).0 q in let here : f y ≡ true = rw (← same) e in ground arith
  | inr q ↦ let later : any f ys ≡ true = any-contains f x ys (rw q at h) e in ground arith
]

any-distinct : (f : Text → Bool) (xs : List Text) → any f (distinct xs) ≡ any f xs
unfolding distinct
any-distinct f [] = refl
any-distinct f (x ∷ xs) = elim (Bool-cases (contains xs x)) [
  | inl e ↦ rw e (ground (arith, any-distinct f xs, any-contains f x xs))
  | inr e ↦ rw (e, any-distinct f xs)
]

or_false : (b : Bool) → (b || false) ≡ b
or_false true = refl
or_false false = refl

abbrev pub blames : Remark → Bool
blames r = is_blocking r.0

-- Whether a blocking remark is among some remarks.
record Blamed (rs : List Remark) (b : Bool) : Type 0 where
  answer : any blames rs ≡ b

joined : {xs ys : List Remark} {a b : Bool} → Blamed xs a → Blamed ys b → Blamed (xs ++ ys) (a || b)
joined {xs = xs} {ys = ys} p q = record {
  answer = rw (any-append blames xs ys, p.answer, q.answer);
}

agreed : {xs : List Remark} {a b : Bool} → Blamed xs a → a ≡ b → Blamed xs b
agreed p e = record { answer = p.answer ∙ e }

any-remarks_for :
    (severity : Severity) (text : Text → Text) (tells : Text → Bool) (xs : List Text)
    → any blames (remarks_for tells (λ x. (severity, text x)) xs)
      ≡ (is_blocking severity && any tells xs)
any-remarks_for severity text tells [] = ground arith
any-remarks_for severity text tells (x ∷ xs) =
    ground (arith, any-remarks_for severity text tells xs)

remarks_for-Blamed :
    (severity : Severity) (text : Text → Text) (tells : Text → Bool) (xs : List Text)
    → Blamed (remarks_for tells (λ x. (severity, text x)) xs) (is_blocking severity && any tells xs)
remarks_for-Blamed severity text tells xs = record {
  answer = any-remarks_for severity text tells xs;
}

flag_remarks-Blamed :
    (name : Text) (was is_now : Bool) → Blamed (flag_remarks name was is_now) false
flag_remarks-Blamed name true true = record { answer = refl }
flag_remarks-Blamed name true false = record { answer = refl }
flag_remarks-Blamed name false true = record { answer = refl }
flag_remarks-Blamed name false false = record { answer = refl }

contains-distinct : (xs : List Text) (x : Text) → contains (distinct xs) x ≡ contains xs x
unfolding contains
contains-distinct xs x = any-distinct (beq x) xs

any_same : (f g : Text → Bool) (xs : List Text) → ((x : Text) → f x ≡ g x) → any f xs ≡ any g xs
any_same f g [] h = refl
any_same f g (x ∷ xs) h = rw (h x, any_same f g xs h)

module _ {F : Type 0} where
  abbrev joined_paths : Policy F → List Text
  joined_paths p = map (join_by dot) p.redact_json_paths

  -- The base policy masks a header, a query parameter or a JSON path that the head policy does not
  -- mask, and, of the first two, one whose channel the head policy captures.
  abbrev pub loses : Policy F → Policy F → Bool
  loses bp hp =
      any (λ h. not (contains hp.redact_headers h) && hp.capture_headers) bp.redact_headers
      || (any (λ q. not (contains hp.redact_query q) && hp.capture_query) bp.redact_query
          || any (λ p. not (contains (joined_paths hp) p)) (joined_paths bp))

  capture_blames : (bp hp : Policy F) → Blamed (capture_remarks bp hp) false
  capture_blames bp hp =
      joined
        (flag_remarks-Blamed (codes "request bodies") bp.capture_request_body
          hp.capture_request_body)
        (joined
          (flag_remarks-Blamed (codes "response bodies") bp.capture_response_body
            hp.capture_response_body)
          (joined (flag_remarks-Blamed (codes "headers") bp.capture_headers hp.capture_headers)
            (flag_remarks-Blamed (codes "query strings") bp.capture_query hp.capture_query)))

  other_blames : (bp hp : Policy F) → Blamed (other_remarks bp hp) false
  other_blames bp hp =
      joined
        (remarks_for-Blamed warn _ (λ l. not (contains (keys_of hp.labels) l)) (keys_of bp.labels))
        (remarks_for-Blamed warn _ (λ m. not (contains (keys_of hp.meters) m)) (keys_of bp.meters))

  lost_path :
      (bp hp : Policy F)
      → any (λ p. not (contains (path_set hp.redact_json_paths) p)) (path_set bp.redact_json_paths)
        ≡ any (λ p. not (contains (joined_paths hp) p)) (joined_paths bp)
  unfolding path_set
  lost_path bp hp =
      any-distinct (λ p. not (contains (path_set hp.redact_json_paths) p)) (joined_paths bp)
      ∙ any_same _ _ (joined_paths bp) (λ p. ap not (contains-distinct (joined_paths hp) p))

  redaction_blames : (bp hp : Policy F) → Blamed (redaction_remarks bp hp) (loses bp hp)
  redaction_blames bp hp =
      joined
        (agreed
          (remarks_for-Blamed blocking _
            (λ h. not (contains hp.redact_headers h) && hp.capture_headers)
            (distinct bp.redact_headers))
          (any-distinct (λ h. not (contains hp.redact_headers h) && hp.capture_headers)
            bp.redact_headers))
        (joined
          (agreed
            (remarks_for-Blamed blocking _
              (λ q. not (contains hp.redact_query q) && hp.capture_query)
              (distinct bp.redact_query))
            (any-distinct (λ q. not (contains hp.redact_query q) && hp.capture_query)
              bp.redact_query))
          (agreed
            (joined
              (agreed
                (remarks_for-Blamed blocking _
                  (λ p. not (contains (path_set hp.redact_json_paths) p))
                  (path_set bp.redact_json_paths))
                (lost_path bp hp))
              (remarks_for-Blamed info _ (λ p. not (contains (path_set bp.redact_json_paths) p))
                (path_set hp.redact_json_paths)))
            (or_false _)))

  pub remarks-loses : (bp hp : Policy F) → any blames (remarks_of bp hp) ≡ loses bp hp
  unfolding remarks_of
  remarks-loses bp hp =
      (agreed (joined (capture_blames bp hp) (joined (redaction_blames bp hp) (other_blames bp hp)))
        (or_false _)).answer
