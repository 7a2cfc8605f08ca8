-- ===== src/Samples.antt =====
-- Concrete data for the tests: numbers, a codec, tools and a configuration.
use optictrace.Prelude.{
  pos, ℕ, ◌+◌, true, false, Option, none, some, [], ◌∷◌, Text, codes, beq, beq_iff, if◌then◌else◌,
  ◌≡◌, arith, Bool-cases, inl, inr,
}
use optictrace.Floats.{Floats}
use optictrace.Json.{Value, null, bool, num, str, arr, obj, end, field}
use optictrace.Config.Rules.{Rule}
use optictrace.Policy.{headers}
use optictrace.Engine.{Attrs, Defaults, Regexp}
use optictrace.Engine.Body.{Codec, RoundTrips}
use optictrace.Engine.New.{Tools}

abbrev pub whole_numbers : Floats ℕ
whole_numbers = record {
  is_whole = λ n. true;
  is_below_1e15 = λ n. true;
  format_int = λ n. codes "7";
  format_float = λ n. codes "7.5";
  zero_value = 0;
  one_value = 1;
  add = λ m n. m + n;
}

abbrev pub same_key : Text → Text
same_key k = k

abbrev pub password : Text
password = codes "password"

-- The document of a text: an object whose only field holds it.
abbrev pub document : Text → Value ℕ
document s = obj (field password (str s) end)

abbrev write : Value ℕ → Option Text
write (obj (field k (str s) end)) = if beq k password then some s else none
write _ = none

abbrev pub one_field : Codec ℕ
one_field = record { valid = λ t. true; unmarshal = λ t. some (document t); marshal = write }

read-write : (v : Value ℕ) (t : Text) → write v ≡ some t → some (document t) ≡ some v
read-write (obj (field k (str s) end)) t h = elim (Bool-cases (beq k password)) [
  | inl e ↦
      let same : k ≡ password = (beq_iff k password).0 e in
      let text : some s ≡ some t = rw e at h in cc
  | inr e ↦ absurd (ground (arith, rw e at h))
]
read-write null t h = absurd (ground arith)
read-write (bool b) t h = absurd (ground arith)
read-write (num n) t h = absurd (ground arith)
read-write (str s) t h = absurd (ground arith)
read-write (arr vs) t h = absurd (ground arith)
read-write (obj end) t h = absurd (ground arith)
read-write (obj (field k null fs)) t h = absurd (ground arith)
read-write (obj (field k (bool b) fs)) t h = absurd (ground arith)
read-write (obj (field k (num n) fs)) t h = absurd (ground arith)
read-write (obj (field k (arr vs) fs)) t h = absurd (ground arith)
read-write (obj (field k (obj gs) fs)) t h = absurd (ground arith)
read-write (obj (field k (str s) (field j v fs))) t h = absurd (ground arith)

pub one_field-RoundTrips : RoundTrips one_field
one_field-RoundTrips = record { decodes = read-write }

-- Every pattern compiles, to a test that accepts every text.
abbrev accepts : Regexp
accepts s = true

abbrev pub tools : Tools
tools = record {
  compile = λ pat. some accepts;
  compile_group = λ pat. none;
  canonical_key = same_key;
  parse_duration = λ s. none;
}

abbrev pub defaults : Defaults
defaults = record {
  capture = record {
    request_body = none;
    response_body = none;
    headers = none;
    query = some false;
  };
  capture_limit_bytes = pos 0;
}

abbrev pub login_rule : Rule ℕ
login_rule = record {
  name = codes "login";
  match = record {
    path = codes "/api/**";
    methods = codes "POST" ∷ [];
    graphql_operation = [];
    headers = [];
    query = [];
    body = [];
  };
  restrict = headers ∷ [];
  redact = some (record {
    headers = codes "Authorization" ∷ [];
    json_fields = codes "$.password" ∷ [];
    query_params = codes "token" ∷ [];
  });
  labels = [];
  sample = some 3;
  keep_errors = some true;
  keep_slower_than = [];
  meter = [];
  logs = none;
}

abbrev pub login : Attrs ℕ
login = record {
  method = codes "POST";
  path = codes "/api/login";
  headers = none;
  query = none;
  operation = [];
  body = none;
}
