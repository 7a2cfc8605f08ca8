-- ===== src/Graphql/Names.antt =====
-- internal/proxy/graphql.go: the names that a request can give to an operation.
use optictrace.Prelude.{
  All, ◌∷◌, every, ◌==◌, codes, ◌≤◌, true, not, ◌||◌, Option, none, some, [], Text, length, take,
  is_empty, ltb, if◌then◌else◌, if_cases, ◌≡◌, refl, arith,
}
use optictrace.Graphql.{
  Unicode, is_letter, is_digit, may_stand, byte_length, Request, is_plain, sanitize_operation_name,
  parse_operation_name, operation_of, is_batch, graphql_operation, max_graphql_body_peek,
}

module _ (u : Unicode) where
  -- No digit first.
  abbrev pub StartsWell : Text → Type 0
  StartsWell [] = Unit
  StartsWell (r ∷ s) = (is_letter u r || r == b'_') ≡ true

  -- At most 64 bytes of letters, digits and underscores.
  pub record IsLabel (name : Text) : Type 0 where
    pub short : byte_length name ≤ 64
    pub runes : All (λ r. (is_letter u r || is_digit u r || r == b'_') ≡ true) name
    pub starts_well : StartsWell name

  every_rune :
      (s : Text)
      → every (may_stand u true) s ≡ true
      → All (λ r. (is_letter u r || is_digit u r || r == b'_') ≡ true) s
  every_rune [] h = tt
  every_rune (r ∷ s) h = (ground (arith, h), every_rune s (ground (arith, h)))

  plain-IsLabel : (name : Text) → byte_length name ≤ 64 → is_plain u name ≡ true → IsLabel name
  plain-IsLabel [] short h = record { short = short; runes = tt; starts_well = tt }
  plain-IsLabel (r ∷ s) short h = record {
    short = short;
    runes = (ground (arith, h), every_rune s (ground (arith, h)));
    starts_well = ground (arith, h);
  }

  empty-IsLabel : IsLabel []
  empty-IsLabel = plain-IsLabel [] (omega arith) refl

  sanitize_operation_name-IsLabel : (name : Text) → IsLabel (sanitize_operation_name u name)
  unfolding sanitize_operation_name
  sanitize_operation_name-IsLabel name =
      if_cases IsLabel (is_empty name || ltb 64 (byte_length name)) _ _ (λ e. empty-IsLabel)
        (λ e.
          if_cases IsLabel (is_plain u name) _ _ (λ p. plain-IsLabel name (ground arith) p)
            (λ p. empty-IsLabel))

  operation_of-IsLabel : (o : Option Request) → IsLabel (operation_of u o)
  operation_of-IsLabel none = empty-IsLabel
  operation_of-IsLabel (some req) =
      if_cases IsLabel (not (is_empty (sanitize_operation_name u req.operation_name))) _ _
        (λ e. sanitize_operation_name-IsLabel req.operation_name)
        (λ e.
          if_cases IsLabel (is_empty req.query) _ _ (λ q. empty-IsLabel)
            (λ q. sanitize_operation_name-IsLabel (parse_operation_name u req.query)))

  -- Whatever body a client sends and whatever it decodes to, the operation reported for it is at
  -- most 64 bytes long and empty or made of letters, digits and underscores, in the sense of
  -- Unicode, with no digit first.
  pub graphql_operation-IsLabel :
      (unmarshal : Text → Option Request) (body : Text)
      → IsLabel (graphql_operation u unmarshal body)
  unfolding graphql_operation
  graphql_operation-IsLabel unmarshal body =
      if_cases IsLabel (is_empty body) _ _ (λ e. empty-IsLabel)
        (λ e.
          if_cases IsLabel
            (is_batch (
              if ltb max_graphql_body_peek (length body)
              then take max_graphql_body_peek body
              else body))
            _ _ (λ b. plain-IsLabel (codes "batch") (omega arith) refl)
            (λ b. operation_of-IsLabel (
              unmarshal (
                if ltb max_graphql_body_peek (length body)
                then take max_graphql_body_peek body
                else body))))
