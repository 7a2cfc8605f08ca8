-- ===== src/Graphql.antt =====
-- internal/proxy/graphql.go: the operation name of a GraphQL request. A body is its bytes; a text that
-- json.Unmarshal has decoded is valid UTF-8, and is the list of its runes.
mod Tests
pub mod Names
use optictrace.Prelude.{
  ℕ, ◌+◌, zero, suc, Bool, true, false, not, ◌&&◌, ◌||◌, Option, none, some, List, [], ◌∷◌, ◌++◌,
  Text, codes, every, length, take, drop, is_empty, leb, ltb, ◌==◌, min, if◌then◌else◌, split_by,
  starts_with, trim_left, trim, is_space,
}

abbrev pub max_graphql_body_peek : ℕ
max_graphql_body_peek = 65536

abbrev pub max_operation_name_len : ℕ
max_operation_name_len = 64

-- Package unicode beyond ASCII.
pub record Unicode : Type 0 where
  pub letter : ℕ → Bool
  pub digit : ℕ → Bool
  pub space : ℕ → Bool

abbrev pub rune_width : ℕ → ℕ
rune_width r = if ltb r 128 then 1 else if ltb r 2048 then 2 else if ltb r 65536 then 3 else 4

-- `len(name)`, which counts bytes.
abbrev pub byte_length : Text → ℕ
byte_length [] = 0
byte_length (r ∷ s) = rune_width r + byte_length s

abbrev pub is_ascii_letter : ℕ → Bool
is_ascii_letter c = (leb b'a' c && leb c b'z') || (leb b'A' c && leb c b'Z')

-- strings.CutPrefix, and the test of the first byte after it, which for a rune beyond ASCII is no
-- space.
abbrev pub whole_word : Text → Option Text
whole_word [] = none
whole_word (c ∷ rest) = if is_space c then some (c ∷ rest) else none

unfoldable pub after_keyword : Text → Text → Option Text
unfolding starts_with
after_keyword kw line = if starts_with kw line then whole_word (drop (length kw) line) else none

abbrev pub keywords : List Text
keywords = codes "query" ∷ codes "mutation" ∷ codes "subscription" ∷ []

module _ (u : Unicode) where
  abbrev pub is_letter : ℕ → Bool
  is_letter r = if ltb r 128 then is_ascii_letter r else u.letter r

  abbrev pub is_digit : ℕ → Bool
  is_digit r = if ltb r 128 then leb b'0' r && leb r b'9' else u.digit r

  abbrev pub is_white : ℕ → Bool
  is_white r = if ltb r 128 then is_space r else u.space r

  -- `i > 0` is the first argument.
  abbrev pub may_stand : Bool → ℕ → Bool
  may_stand later r = is_letter r || r == b'_' || (is_digit r && later)

  abbrev pub is_plain : Text → Bool
  is_plain [] = true
  is_plain (r ∷ s) = may_stand false r && every (may_stand true) s

  unfoldable pub sanitize_operation_name : Text → Text
  sanitize_operation_name name =
      if is_empty name || ltb max_operation_name_len (byte_length name)
      then []
      else if is_plain name
      then name
      else []

  -- `rest[:end]`, up to the first rune that belongs to no name.
  abbrev pub name_prefix : Text → Text
  name_prefix [] = []
  name_prefix (r ∷ s) = if may_stand true r then r ∷ name_prefix s else []

  abbrev pub name_after : List Text → Text → Text
  name_after [] line = []
  name_after (kw ∷ kws) line = elim (after_keyword kw line) [
    | none ↦ name_after kws line
    | some rest ↦ name_prefix (trim is_white rest)
  ]

  abbrev pub first_definition : List Text → Text
  first_definition [] = []
  first_definition (line ∷ lines) =
      let t = trim is_white line in
      if is_empty t || starts_with (codes "#") t
      then first_definition lines
      else name_after keywords t

  unfoldable pub parse_operation_name : Text → Text
  unfolding split_by trim starts_with after_keyword
  parse_operation_name doc = first_definition (split_by 10 doc)

-- The fields of the request that are read.
pub record Request : Type 0 where
  pub operation_name : Text
  pub query : Text

abbrev pub blank : ℕ → Bool
blank c = c == b' ' || c == 9 || c == 13 || c == 10

unfoldable pub is_batch : Text → Bool
unfolding trim_left starts_with
is_batch body = starts_with (codes "[") (trim_left blank (take (min 8 (length body)) body))

module _ (u : Unicode) where
  abbrev pub operation_of : Option Request → Text
  operation_of none = []
  operation_of (some req) =
      let n = sanitize_operation_name u req.operation_name in
      if not (is_empty n)
      then n
      else if is_empty req.query
      then []
      else sanitize_operation_name u (parse_operation_name u req.query)

  -- `unmarshal` is json.Unmarshal into the two fields.
  unfoldable pub graphql_operation : (Text → Option Request) → Text → Text
  unfolding is_batch sanitize_operation_name parse_operation_name
  graphql_operation unmarshal body =
      if is_empty body
      then []
      else (let peek =
            if ltb max_graphql_body_peek (length body)
            then take max_graphql_body_peek body
            else body in
          if is_batch peek then codes "batch" else operation_of (unmarshal peek))
