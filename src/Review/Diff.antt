-- ===== src/Review/Diff.antt =====
-- internal/review/review.go: what a change of the configuration does to recorded traffic.
use optictrace.Prelude.{
  ℕ, ◌+◌, Bool, not, ◌&&◌, Option, none, some, List, [], ◌∷◌, ◌++◌, Text, codes, contains, insert,
  lookup, ltb, ◌==◌, if◌then◌else◌, map, join_by, text_le,
}
use optictrace.Floats.{Floats}
use optictrace.Label.{MultiMap}
use optictrace.Redact.{JsonPath}
use optictrace.Config.{dot}
use optictrace.Policy.{Policy}
use optictrace.Engine.{Engine}
use optictrace.Review.{Record, route_of, policy_of}

pub data Severity : Type 0 where
  blocking warn info : Severity

pub record PolicyChange : Type 0 where
  pub severity : Severity
  pub method : Text
  pub route : Text
  pub what : Text
  pub affected : ℕ

-- A call of `note`.
pub record Note : Type 0 where
  pub severity : Severity
  pub method : Text
  pub route : Text
  pub what : Text

abbrev pub bar : ℕ
bar = b'|'

unfoldable pub note_key : Note → Text
note_key n = n.method ++ bar ∷ (n.route ++ bar ∷ n.what)

abbrev pub counted_change : Note → Option PolicyChange → PolicyChange
counted_change n none = record {
  severity = n.severity;
  method = n.method;
  route = n.route;
  what = n.what;
  affected = 1;
}
counted_change n (some a) = record a { affected = a.affected + 1 }

-- `seen`, after every call of `note`.
unfoldable pub add_notes : List Note → List (Text × PolicyChange) → List (Text × PolicyChange)
unfolding insert lookup note_key
add_notes [] seen = seen
add_notes (n ∷ notes) seen =
    add_notes notes (insert (note_key n) (counted_change n (lookup (note_key n) seen)) seen)

-- A set holds each of its members once.
unfoldable pub distinct : List Text → List Text
unfolding contains
distinct [] = []
distinct (x ∷ xs) = if contains xs x then distinct xs else x ∷ distinct xs

-- pathSet
unfoldable pub path_set : List JsonPath → List Text
unfolding distinct join_by
path_set paths = distinct (map (join_by dot) paths)

-- The severity and the text of a note.
abbrev pub Remark : Type 0
Remark = Severity × Text

abbrev pub flag_remarks : Text → Bool → Bool → List Remark
flag_remarks name was is_now =
    if not was && is_now
    then (warn, codes "now captures " ++ (name ++ codes " (was restricted)")) ∷ []
    else if was && not is_now
    then (info, codes "no longer captures " ++ name) ∷ []
    else []

-- A remark, if `tells`, for each name.
abbrev pub remarks_for : (Text → Bool) → (Text → Remark) → List Text → List Remark
remarks_for tells remark [] = []
remarks_for tells remark (x ∷ xs) =
    if tells x then remark x ∷ remarks_for tells remark xs else remarks_for tells remark xs

abbrev pub keys_of {ℓ} : {A : Type ℓ} → List (Text × A) → List Text
keys_of [] = []
keys_of ((k, v) ∷ m) = k ∷ keys_of m

abbrev pub quoted : Text → Text
quoted s = b'`' ∷ (s ++ b'`' ∷ [])

module _ {F : Type 0} where
  abbrev pub redaction_remarks : Policy F → Policy F → List Remark
  redaction_remarks bp hp =
      let base_paths = path_set bp.redact_json_paths in
      let head_paths = path_set hp.redact_json_paths in
      remarks_for (λ h. not (contains hp.redact_headers h) && hp.capture_headers)
        (λ h. (blocking, codes "stops redacting header " ++ quoted h)) (distinct bp.redact_headers)
      ++ (remarks_for (λ q. not (contains hp.redact_query q) && hp.capture_query)
            (λ q. (blocking, codes "stops redacting query param " ++ quoted q))
            (distinct bp.redact_query)
          ++ (remarks_for (λ p. not (contains head_paths p))
                (λ p. (blocking, codes "stops redacting " ++ quoted (codes "$." ++ p))) base_paths
              ++ remarks_for (λ p. not (contains base_paths p))
                  (λ p. (info, codes "now redacts " ++ quoted (codes "$." ++ p))) head_paths))

  abbrev pub other_remarks : Policy F → Policy F → List Remark
  other_remarks bp hp =
      remarks_for (λ l. not (contains (keys_of hp.labels) l))
        (λ l.
          (warn, codes "drops label " ++ (quoted l ++ codes " (breaks its Prometheus dimension)")))
        (keys_of bp.labels)
      ++ remarks_for (λ m. not (contains (keys_of hp.meters) m))
          (λ m. (
            warn,
            codes "drops meter " ++ (quoted m ++ codes " (usage and cost stop being attributed)"),
          ))
          (keys_of bp.meters)

  abbrev pub capture_remarks : Policy F → Policy F → List Remark
  capture_remarks bp hp =
      flag_remarks (codes "request bodies") bp.capture_request_body hp.capture_request_body
      ++ (flag_remarks (codes "response bodies") bp.capture_response_body hp.capture_response_body
          ++ (flag_remarks (codes "headers") bp.capture_headers hp.capture_headers
              ++ flag_remarks (codes "query strings") bp.capture_query hp.capture_query))

  unfoldable pub remarks_of : Policy F → Policy F → List Remark
  unfolding path_set distinct contains
  remarks_of bp hp = capture_remarks bp hp ++ (redaction_remarks bp hp ++ other_remarks bp hp)

abbrev pub notes_with : Text → Text → List Remark → List Note
notes_with method route [] = []
notes_with method route ((severity, what) ∷ rs) =
    record { severity = severity; method = method; route = route; what = what }
    ∷ notes_with method route rs

abbrev pub rank : Severity → ℕ
rank blocking = 0
rank warn = 1
rank info = 2

-- The comparison that sort.Slice is given.
unfoldable pub is_before : PolicyChange → PolicyChange → Bool
unfolding text_le
is_before a b =
    if not (rank a.severity == rank b.severity)
    then ltb (rank a.severity) (rank b.severity)
    else if not (a.affected == b.affected)
    then ltb b.affected a.affected
    else not (text_le b.what a.what)

abbrev pub insert_change : PolicyChange → List PolicyChange → List PolicyChange
insert_change c [] = c ∷ []
insert_change c (d ∷ ds) = if is_before d c then d ∷ insert_change c ds else c ∷ d ∷ ds

unfoldable pub sort_changes : List (Text × PolicyChange) → List PolicyChange
unfolding is_before
sort_changes [] = []
sort_changes ((k, c) ∷ seen) = insert_change c (sort_changes seen)

module _ {F : Type 0} (ops : Floats F) (canonical_key : Text → Text)
    (parse_query : Text → Option MultiMap) where
  abbrev pub record_notes : Engine F → Engine F → Record → List Note
  record_notes base head rec =
      let bp = policy_of ops canonical_key parse_query base rec in
      let hp = policy_of ops canonical_key parse_query head rec in
      notes_with rec.method (route_of rec hp) (remarks_of bp hp)

  abbrev pub all_notes : Engine F → Engine F → List Record → List Note
  all_notes base head [] = []
  all_notes base head (rec ∷ records) = record_notes base head rec ++ all_notes base head records

  unfoldable pub diff_policies : List Record → Engine F → Engine F → List PolicyChange
  unfolding remarks_of route_of add_notes sort_changes
  diff_policies records base head = sort_changes (add_notes (all_notes base head records) [])
