-- ===== src/Scan/Tests.antt =====
-- Runs of the checksums, the mask and the scanner.
use optictrace.Prelude.{
  ℕ, ◌+◌, true, false, none, some, [], ◌∷◌, ◌++◌, Text, codes, length, ◌≡◌, refl, arith,
}
use optictrace.Scan.{Detector, mask, new_detector, refused, empty_match, is_skipped}
use optictrace.Scan.Verify.{luhn_valid, iban_plausible, ssn_plausible, verhoeff_valid}
use optictrace.Scan.Digits.{luhn_valid-slip}
use optictrace.Scan.Slips.{verhoeff_valid-swap}
use optictrace.Scan.Masked.{mask-LooksLike}
use optictrace.Scan.Scanner.{Scanner, Place, Readers, new_scanner_with}
use optictrace.Scan.Walk.{Record, place}

card : luhn_valid (codes "4111 1111 1111 1111") ≡ true
unfolding luhn_valid
card = refl

account : iban_plausible (codes "GB82 WEST 1234 5698 7654 32") ≡ true
unfolding iban_plausible
account = refl

never_issued : ssn_plausible (codes "666-12-3456") ≡ false
unfolding ssn_plausible
never_issued = refl

aadhaar : verhoeff_valid (codes "2363") ≡ true
unfolding verhoeff_valid
aadhaar = refl

luhn_valid-slip_example : luhn_valid (codes "4111 1111 " ++ b'2' ∷ codes "111 1111") ≡ false
unfolding luhn_valid
luhn_valid-slip_example =
    luhn_valid-slip (codes "4111 1111 ") (codes "111 1111") b'1' b'2' refl refl (λ h. omega arith)
      refl

verhoeff_valid-swap_example : verhoeff_valid (codes "2" ++ b'6' ∷ b'3' ∷ codes "3") ≡ false
unfolding verhoeff_valid
verhoeff_valid-swap_example =
    verhoeff_valid-swap (codes "2") (codes "3") b'3' b'6' refl refl (λ h. omega arith) refl

-- A value of 21 bytes, of which the first eleven are no placeholder.
skipped : is_skipped (codes "123-45-6789[REDACTED]") ≡ true
unfolding is_skipped
skipped = refl

mask-LooksLike_example : mask (codes "ab1234yz") ≡ mask (codes "ab5678yz")
unfolding optictrace.Prelude.trim_space
mask-LooksLike_example =
    mask-LooksLike (codes "ab1234yz") (codes "ab5678yz")
      (record { as_long = refl; same_start = refl; same_end = refl })

abbrev finds_all : Detector
finds_all = record {
  kind = 1 ∷ [];
  severity = codes "high";
  why = [];
  find_all = λ s. s ∷ [];
  verify = none;
}

matches_all :
    new_detector
      (λ t. some (record { find_all = λ s. []; matches_empty = true }))
      (codes "k")
      (codes "high")
      []
      (codes "x*")
      []
    ≡ refused empty_match
unfolding new_detector
matches_all = refl

abbrev readers : Readers ℕ
readers = record {
  decode = λ t. none;
  parse_query = λ t. none;
  is_int64 = λ n. true;
  print_int = λ n. [];
  print_general = λ n. [];
  quote = λ t. t;
}

abbrev rec : Record
rec = record {
  method = codes "GET";
  route = codes "/a";
  time = 3;
  query = [];
  request_body = [];
  response_body = [];
  request_headers = (7 ∷ [], 8 ∷ []) ∷ [];
  response_headers = [];
}

abbrev scanner : Scanner
scanner = new_scanner_with (finds_all ∷ []) []

abbrev header_place : Place
header_place = (place readers rec (codes "request_headers") (7 ∷ [], 8 ∷ [])).0
