-- ===== src/Telcap/Tests.antt =====
-- Runs of the counter and of the truncation.
use optictrace.Prelude.{
  ◌+◌, ◌-◌, ◌≤◌, ◌⊎◌, min, true, [], ◌∷◌, ◌++◌, Text, length, ◌≡◌, refl, arith,
}
use optictrace.Telcap.{Counter, seen, allow, rune_start, byte_at, truncate_utf8}
use optictrace.Telcap.Cap.{seen-allow_self, IsBounded, allow-IsBounded}
use optictrace.Telcap.Run.{granted, calls_for, granted_lem}
use optictrace.Telcap.Truncate.{truncate_utf8_lem}

abbrev a : Text
a = 1 ∷ []

abbrev b : Text
b = 2 ∷ []

-- One call counted for `a`, in a counter of two keys.
abbrev counter : Counter
counter = record { cur = (a, 1) ∷ []; prev = []; max_keys = 2 }

seen-counter : seen counter a ≡ 1
unfolding seen
seen-counter = refl

seen-allow_self_example : seen (allow counter a 3).0 a ≡ seen counter a + 1
seen-allow_self_example = seen-allow_self counter a 3 (rw seen-counter (omega arith))

abbrev counter-IsBounded : IsBounded counter
counter-IsBounded = record {
  some_room = omega arith;
  newer_fits = omega arith;
  older_fits = omega arith;
}

allow-IsBounded_example : IsBounded (allow counter b 3).0
allow-IsBounded_example = allow-IsBounded counter b 3 counter-IsBounded

abbrev roomy : Counter
roomy = record { cur = []; prev = []; max_keys = 8 }

granted_lem_example :
    granted roomy 2 a (a ∷ b ∷ a ∷ a ∷ [])
    ≡ min (2 - seen roomy a) (calls_for a (a ∷ b ∷ a ∷ a ∷ []))
granted_lem_example = granted_lem roomy 2 a (a ∷ b ∷ a ∷ a ∷ []) (omega arith) (omega arith)

-- "é€": two bytes, then three.
abbrev text : Text
text = 195 ∷ 169 ∷ 226 ∷ 130 ∷ 172 ∷ []

truncate_utf8_lem_example :
    let t = truncate_utf8 text 4 in
    (length t ≤ 4)
    × ((rest : Text) × (t ++ rest ≡ text))
    × ((t ≡ text) ⊎ (length t ≡ 0) ⊎ (rune_start (byte_at text (length t)) ≡ true))
truncate_utf8_lem_example = truncate_utf8_lem text 4 (omega arith)
