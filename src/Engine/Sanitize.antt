-- ===== src/Engine/Sanitize.antt =====
-- internal/engine/redact.go: what is stored of headers and of the query string.
use optictrace.Prelude.{
  ℕ, ◌≢◌, Bool, true, false, List, [], ◌∷◌, ◌++◌, Text, codes, contains, lookup, beq, beq_iff,
  text_le, length, to_lower, ◌≡◌, refl, if◌then◌else◌, arith, Bool-cases, inl, inr, Option, none,
  some, is_empty, ap, ◌∙◌,
}
use optictrace.Redact.{placeholder}
use optictrace.Label.{MultiMap}
use optictrace.Policy.{Policy}

-- `joined := vals[0]; for _, v := range vals[1:] { joined += ", " + v }`
abbrev pub join_rest : Text → List Text → Text
join_rest joined [] = joined
join_rest joined (v ∷ vs) = join_rest (joined ++ codes ", " ++ v) vs

unfoldable pub join_values : List Text → Text
join_values [] = []
join_values (v ∷ vs) = join_rest v vs

abbrev pub insert_query : Text × List Text → MultiMap → MultiMap
insert_query e [] = e ∷ []
insert_query e (f ∷ m) = if text_le e.0 f.0 then e ∷ f ∷ m else f ∷ insert_query e m

-- sort.Strings(keys), with the values that the loop reads by key.
unfoldable pub sort_keys : MultiMap → MultiMap
unfolding text_le
sort_keys [] = []
sort_keys (e ∷ m) = insert_query e (sort_keys m)

-- url.ParseQuery and url.QueryEscape.
pub record Urls : Type 0 where
  pub parse_query : Text → Option MultiMap
  pub query_escape : Text → Text

abbrev pub ampersand : ℕ
ampersand = b'&'

module _ {F : Type 0} (p : Policy F) where
  abbrev pub stored_header : Text → List Text → Text
  stored_header name vals = if contains p.redact_headers name then placeholder else join_values vals

  unfoldable pub sanitize_headers : MultiMap → List (Text × Text)
  unfolding join_values
  sanitize_headers [] = []
  sanitize_headers ((name, vals) ∷ h) = (name, stored_header name vals) ∷ sanitize_headers h

  abbrev pub stored_values : Option (List Text) → Text → Option Text
  stored_values none name = none
  stored_values (some vals) name = some (stored_header name vals)

  -- Every header is stored under its name, as the placeholder if the policy lists it and as its
  -- values joined if not, and no other header is stored.
  pub lookup-sanitize_headers :
      (h : MultiMap) (name : Text)
      → lookup name (sanitize_headers h) ≡ stored_values (lookup name h) name
  unfolding sanitize_headers lookup
  lookup-sanitize_headers [] name = refl
  lookup-sanitize_headers ((k, vals) ∷ h) name = elim (Bool-cases (beq k name)) [
    | inl e ↦ rw (e, (beq_iff k name).0 e)
    | inr e ↦ rw e (lookup-sanitize_headers h name)
  ]

  module _ (urls : Urls) where
    abbrev pub stored_pair : Bool → Text → Text → Text
    stored_pair mask k v =
        urls.query_escape k ++ b'=' ∷ (if mask then placeholder else urls.query_escape v)

    -- `if b.Len() > 0 { b.WriteByte('&') }`, then the pair.
    abbrev pub write_pair : Text → Text → Text
    write_pair b pair = (if is_empty b then b else b ++ ampersand ∷ []) ++ pair

    abbrev pub write_values : Bool → Text → List Text → Text → Text
    write_values mask k [] b = b
    write_values mask k (v ∷ vs) b = write_values mask k vs (write_pair b (stored_pair mask k v))

    abbrev pub is_masked : Text → Bool
    is_masked k = contains p.redact_query (to_lower k)

    abbrev pub write_query : MultiMap → Text → Text
    write_query [] b = b
    write_query ((k, vs) ∷ m) b = write_query m (write_values (is_masked k) k vs b)

    abbrev pub written : Option MultiMap → Text
    written none = codes "(unparseable query omitted)"
    written (some values) = write_query (sort_keys values) []

    unfoldable pub sanitize_query : Text → Text
    unfolding sort_keys
    sanitize_query raw = if is_empty raw then [] else written (urls.parse_query raw)

    -- Two values of one parameter that a reader of the stored query must not tell apart.
    abbrev pub SameValues : Bool → List Text → List Text → Type 0
    SameValues true vs ws = length vs ≡ length ws
    SameValues false vs ws = vs ≡ ws

    -- The same parameters, as often, and the same values of those that are not masked.
    abbrev pub SameUnmasked : MultiMap → MultiMap → Type 0
    SameUnmasked [] [] = Unit
    SameUnmasked ((k, vs) ∷ m) ((j, ws) ∷ n) =
        (k ≡ j) × SameValues (is_masked k) vs ws × SameUnmasked m n
    SameUnmasked _ _ = ⊥

    write_values_same :
        (mask : Bool) (k : Text) (vs ws : List Text) (b : Text)
        → SameValues mask vs ws
        → write_values mask k vs b ≡ write_values mask k ws b
    write_values_same false k vs ws b h = rw h
    write_values_same true k [] [] b h = refl
    write_values_same true k [] (w ∷ ws) b h = absurd (omega arith)
    write_values_same true k (v ∷ vs) [] b h = absurd (omega arith)
    write_values_same true k (v ∷ vs) (w ∷ ws) b h = write_values_same true k vs ws _ (omega arith)

    write_query_same :
        (m n : MultiMap) (b : Text) → SameUnmasked m n → write_query m b ≡ write_query n b
    write_query_same [] [] b h = refl
    write_query_same [] (e ∷ n) b h = absurd h
    write_query_same (e ∷ m) [] b h = absurd h
    write_query_same ((k, vs) ∷ m) ((j, ws) ∷ n) b (e, s, h) = rw (← e) (
        write_query_same m n (write_values (is_masked k) k vs b) h
        ∙ ap (write_query n) (write_values_same (is_masked k) k vs ws b s))

    insert_query_same :
        (k : Text) (vs ws : List Text) (m n : MultiMap)
        → SameValues (is_masked k) vs ws
        → SameUnmasked m n
        → SameUnmasked (insert_query (k, vs) m) (insert_query (k, ws) n)
    insert_query_same k vs ws [] [] s h = (refl, s, tt)
    insert_query_same k vs ws [] (e ∷ n) s h = absurd h
    insert_query_same k vs ws (e ∷ m) [] s h = absurd h
    insert_query_same k vs ws ((i, us) ∷ m) ((j, xs) ∷ n) s (e, t, h) =
        rw (← e) (
          if_both (text_le k i) (refl, s, (refl, t, h))
            (refl, t, insert_query_same k vs ws m n s h))
      where
        if_both :
            (b : Bool)
            → SameUnmasked ((k, vs) ∷ (i, us) ∷ m) ((k, ws) ∷ (i, xs) ∷ n)
            → SameUnmasked ((i, us) ∷ insert_query (k, vs) m) ((i, xs) ∷ insert_query (k, ws) n)
            → SameUnmasked
                (if b then (k, vs) ∷ (i, us) ∷ m else (i, us) ∷ insert_query (k, vs) m)
                (if b then (k, ws) ∷ (i, xs) ∷ n else (i, xs) ∷ insert_query (k, ws) n)
        if_both true x y = x
        if_both false x y = y

    sort_keys_same : (m n : MultiMap) → SameUnmasked m n → SameUnmasked (sort_keys m) (sort_keys n)
    unfolding sort_keys
    sort_keys_same [] [] h = tt
    sort_keys_same [] (e ∷ n) h = absurd h
    sort_keys_same (e ∷ m) [] h = absurd h
    sort_keys_same ((k, vs) ∷ m) ((j, ws) ∷ n) (e, s, h) =
        rw (← e) (insert_query_same k vs ws _ _ s (sort_keys_same m n h))

    -- Two non-empty query strings that parse to the same parameters and differ only in values of
    -- masked parameters, as many of each, are stored alike, so that the stored query tells nothing
    -- of those values.
    pub sanitize_query-SameUnmasked :
        (raw raw' : Text) (m n : MultiMap)
        → raw ≢ []
        → raw' ≢ []
        → urls.parse_query raw ≡ some m
        → urls.parse_query raw' ≡ some n
        → SameUnmasked m n
        → sanitize_query raw ≡ sanitize_query raw'
    unfolding sanitize_query
    sanitize_query-SameUnmasked [] raw' m n ne ne' e e' h = absurd (ne refl)
    sanitize_query-SameUnmasked (c ∷ raw) [] m n ne ne' e e' h = absurd (ne' refl)
    sanitize_query-SameUnmasked (c ∷ raw) (d ∷ raw') m n ne ne' e e' h =
        rw (e, e') (write_query_same _ _ [] (sort_keys_same m n h))
