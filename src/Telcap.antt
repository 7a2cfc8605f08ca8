-- ===== src/Telcap.antt =====
-- internal/telcap/telcap.go: a counter for each key in bounded memory, and truncation of UTF-8.
mod Tests
pub mod Cap
pub mod Run
pub mod Truncate
use optictrace.Prelude.{
  ℕ, zero, suc, ◌+◌, ◌/◌, Bool, true, false, not, ◌&&◌, ◌||◌, Option, none, some, List, [], ◌∷◌,
  Text, lookup, insert, length, take, ltb, leb, ◌==◌, if◌then◌else◌,
}

abbrev pub default_max_tracked_keys : ℕ
default_max_tracked_keys = 4096

pub record Counter : Type 0 where
  pub cur : List (Text × ℕ)
  pub prev : List (Text × ℕ)
  pub max_keys : ℕ

unfoldable pub new_counter : ℕ → Counter
new_counter max_keys = record {
  cur = [];
  prev = [];
  max_keys = if max_keys == 0 then default_max_tracked_keys else max_keys;
}

abbrev pub older : Option ℕ → ℕ
older none = 0
older (some p) = p

abbrev pub count_of : Option ℕ → Option ℕ → ℕ
count_of none in_prev = older in_prev
count_of (some n) in_prev = n

abbrev pub is_new : Option ℕ → Bool
is_new none = true
is_new (some n) = false

-- `n`: the count in the newer generation, or else in the older one, or else 0.
unfoldable pub seen : Counter → Text → ℕ
unfolding lookup
seen c key = count_of (lookup key c.cur) (lookup key c.prev)

-- The generations turn over when a new key meets a full newer one.
unfoldable pub turns_over : Counter → Text → Bool
unfolding lookup
turns_over c key = leb c.max_keys (length c.cur) && is_new (lookup key c.cur)

abbrev pub rotate : Counter → Counter
rotate c = record c { prev = c.cur; cur = [] }

-- A `max` below zero is treated as zero is: no limit.
unfoldable pub allow : Counter → Text → ℕ → Counter × Bool
unfolding seen turns_over insert
allow c key max =
    if max == 0
    then (c, true)
    else if leb max (seen c key)
    then (c, false)
    else (let d = if turns_over c key then rotate c else c in
        (record d { cur = insert key (seen c key + 1) d.cur }, true))

-- `b & 0xC0 != 0x80` of a byte: its two high bits are not 10.
unfoldable pub rune_start : ℕ → Bool
rune_start b = not (b / 64 == 2)

abbrev pub byte_at : Text → ℕ → ℕ
byte_at [] i = 0
byte_at (b ∷ s) zero = b
byte_at (b ∷ s) (suc i) = byte_at s i

-- `for cut > 0 && !runeStart(s[cut]) { cut-- }`
unfoldable pub cut_back : Text → ℕ → ℕ
unfolding rune_start
cut_back s zero = zero
cut_back s (suc cut) = if rune_start (byte_at s (suc cut)) then suc cut else cut_back s cut

unfoldable pub truncate_utf8 : Text → ℕ → Text
unfolding cut_back
truncate_utf8 s max = if max == 0 || leb (length s) max then s else take (cut_back s max) s
