-- ===== src/Floats.antt =====
-- What the program uses of float64: a parameter, since the numbers stand outside of the model.
use optictrace.Prelude.{Bool, Text}

pub record Floats (F : Type 0) : Type 0 where
  -- v == math.Trunc(v), math.Abs(v) < 1e15
  pub is_whole : F → Bool
  pub is_below_1e15 : F → Bool
  -- strconv.FormatInt(int64(v), 10), strconv.FormatFloat(v, 'f', -1, 64)
  pub format_int : F → Text
  pub format_float : F → Text
  pub zero_value : F
  pub one_value : F
  pub add : F → F → F
