-- ===== src/Scan.antt =====
-- internal/scan/detect.go and custom.go: detectors of sensitive values, and what a report prints of
-- one. The patterns of the built-in detectors are regular expressions and stand outside.
pub mod Verify
pub mod Digits
pub mod Dihedral
pub mod Slips
pub mod Masked
pub mod Scanner
pub mod Walk
pub mod Counted
mod Tests
use optictrace.Prelude.{
  ℕ, zero, suc, ◌-◌, Bool, true, false, not, ◌&&◌, ◌||◌, Option, none, some, List, [], ◌∷◌, ◌++◌,
  Text, codes, beq, any, is_empty, length, take, drop, leb, ltb, ◌==◌, if◌then◌else◌, starts_with,
  trim_space,
}
use optictrace.Redact.{placeholder}
use optictrace.Scan.Verify.{luhn_valid, iban_plausible, ssn_plausible, verhoeff_valid}

-- What is used of a compiled pattern: FindAllString(s, 4), and whether it matches the empty text.
pub record Pattern : Type 0 where
  pub find_all : Text → List Text
  pub matches_empty : Bool

pub record Detector : Type 0 where
  pub kind : Text
  pub severity : Text
  pub why : Text
  pub find_all : Text → List Text
  pub verify : Option (Text → Bool)

pub record Match : Type 0 where
  pub kind : Text
  pub severity : Text
  pub why : Text
  pub masked : Text

-- "•" in UTF-8.
abbrev pub bullet : Text
bullet = 226 ∷ 128 ∷ 162 ∷ []

unfoldable pub bullets : ℕ → Text
bullets zero = []
bullets (suc n) = bullet ++ bullets n

abbrev pub first_bytes : Text → Text
first_bytes v = if ltb 40 (length v) then take 40 v else v

abbrev pub mask_long : Text → Text
mask_long v = take 2 v ++ bullets (length v - 4) ++ drop (length v - 2) v

unfoldable pub mask : Text → Text
unfolding bullets trim_space
mask v =
    let t = trim_space v in
    if leb (length t) 6 then bullets (length t) else mask_long (first_bytes t)

-- strings.Contains
unfoldable pub has_infix : Text → Text → Bool
unfolding starts_with
has_infix p [] = is_empty p
has_infix p (c ∷ s) = starts_with p (c ∷ s) || has_infix p s

-- A short value in which something was redacted.
unfoldable pub is_skipped : Text → Bool
unfolding has_infix
is_skipped s = is_empty s || (has_infix placeholder s && ltb (length s) 24)

abbrev pub passes : Option (Text → Bool) → Text → Bool
passes none hit = true
passes (some verify) hit = verify hit

abbrev pub match_of : Detector → Text → Match
match_of d hit = record { kind = d.kind; severity = d.severity; why = d.why; masked = mask hit }

-- The first hit that passes, and no more of one detector.
abbrev pub first_hit : Detector → List Text → List Match
first_hit d [] = []
first_hit d (hit ∷ hits) =
    let rest = first_hit d hits in if passes d.verify hit then match_of d hit ∷ [] else rest

abbrev pub run_detectors : List Detector → Text → List Match
run_detectors [] s = []
run_detectors (d ∷ ds) s = first_hit d (d.find_all s) ++ run_detectors ds s

unfoldable pub find_with : List Detector → Text → List Match
unfolding is_skipped
find_with ds s = if is_skipped s then [] else run_detectors ds s

pub data DetectorError : Type 0 where
  no_kind kind_space no_severity unknown_severity no_pattern long_pattern bad_pattern empty_match
        unknown_verifier :
      DetectorError

pub data Built : Type 0 where
  built : Detector → Built
  refused : DetectorError → Built

abbrev pub max_pattern_length : ℕ
max_pattern_length = 512

abbrev pub critical : Text
critical = codes "critical"

abbrev pub high : Text
high = codes "high"

abbrev pub medium : Text
medium = codes "medium"

unfoldable pub verifier : Text → Option (Text → Bool)
unfolding beq
verifier name =
    if beq name (codes "luhn")
    then some luhn_valid
    else if beq name (codes "iban")
    then some iban_plausible
    else if beq name (codes "us_ssn")
    then some ssn_plausible
    else if beq name (codes "verhoeff")
    then some verhoeff_valid
    else none

abbrev pub with_verifier : Detector → Option (Text → Bool) → Built
with_verifier d none = refused unknown_verifier
with_verifier d (some f) = built (record d { verify = some f })

abbrev pub reason : Text → Text → Text
reason why kind = if is_empty why then codes "matched the user-defined detector " ++ kind else why

abbrev pub detector : Text → Text → Text → Pattern → Detector
detector kind severity why p = record {
  kind = kind;
  severity = severity;
  why = why;
  find_all = p.find_all;
  verify = none;
}

abbrev pub with_pattern : Text → Text → Text → Text → Option Pattern → Built
with_pattern kind severity why verify none = refused bad_pattern
with_pattern kind severity why verify (some p) =
    if p.matches_empty
    then refused empty_match
    else (let d = detector kind severity (reason why kind) p in
        if is_empty verify then built d else with_verifier d (verifier verify))

-- NewDetector
unfoldable pub new_detector : (Text → Option Pattern) → Text → Text → Text → Text → Text → Built
unfolding verifier beq
new_detector compile kind severity why pattern verify =
    if is_empty kind
    then refused no_kind
    else if any (λ c. c == b' ' || c == 9) kind
    then refused kind_space
    else if is_empty severity
    then refused no_severity
    else if not (beq severity critical || beq severity high || beq severity medium)
    then refused unknown_severity
    else if is_empty pattern
    then refused no_pattern
    else if ltb max_pattern_length (length pattern)
    then refused long_pattern
    else with_pattern kind severity why verify (compile pattern)
