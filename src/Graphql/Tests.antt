-- ===== src/Graphql/Tests.antt =====
-- Runs of the operation name.
use optictrace.Prelude.{false, ◌∷◌, ◌==◌, Option, some, [], Text, codes, ◌≡◌, refl}
use optictrace.Graphql.{
  Unicode, sanitize_operation_name, Request, parse_operation_name, graphql_operation,
}
use optictrace.Graphql.Names.{IsLabel, graphql_operation-IsLabel}

-- Of the runes beyond ASCII only é is a letter.
abbrev latin : Unicode
latin = record { letter = λ r. r == 233; digit = λ r. false; space = λ r. false }

-- Not only an identifier of GraphQL.
accented : sanitize_operation_name latin (233 ∷ []) ≡ 233 ∷ []
unfolding sanitize_operation_name
accented = refl

named : parse_operation_name latin (codes "mutation PayBill($id: ID!) {") ≡ codes "PayBill"
unfolding parse_operation_name
named = refl

anonymous : parse_operation_name latin (codes "query {") ≡ []
unfolding parse_operation_name
anonymous = refl

-- Every body is a request whose query it is.
abbrev as_query : Text → Option Request
as_query body = some (record { operation_name = []; query = body })

graphql_operation-IsLabel_example :
    IsLabel latin (graphql_operation latin as_query (codes "query GetUser {"))
graphql_operation-IsLabel_example =
    graphql_operation-IsLabel latin as_query (codes "query GetUser {")
