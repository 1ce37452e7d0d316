-- ===== src/Metrics/Reals.antt =====
-- Python's floating-point numbers as engine_metrics.py uses them.
use runboard_lcp.Base.{String, Bool, Option, some}
use runboard_lcp.Base.Int.{ℤ, pos}
use runboard_lcp.Json.{Json, bool, int, float, str}

-- What `float(value)` gives: an exception (TypeError or ValueError), a NaN or an infinity, or a number.
pub data Number (R : Type 0) : Type 0 where
  no_number not_finite : Number R
  finite : R → Number R

-- `parse` is `float(text)`, `classify` tells the finite numbers, `to_int` is `int(x)` and `round_int` is
-- `int(round(x))`.
pub record Reals : Type 1 where
  pub R : Type 0
  pub zero : R
  pub add : R → R → R
  pub sub : R → R → R
  pub mul : R → R → R
  pub div : R → R → R
  pub is_pos : R → Bool
  pub is_one : R → Bool
  pub is_zero : R → Bool
  pub parse : String → Number R
  pub classify : R → Number R
  pub of_int : ℤ → R
  pub to_int : R → ℤ
  pub round_int : R → ℤ

module _ (rl : Reals) where
  open rl use {R}

  -- `float(value)` on a parsed value
  unfoldable pub number_of : Option (Json R) → Number R
  number_of (some (str s)) = rl.parse s
  number_of (some (float x)) = rl.classify x
  number_of (some (int i)) = rl.classify (rl.of_int i)
  number_of (some (bool b)) = finite (rl.of_int (elim b [ Bool.true ↦ pos 1 | Bool.false ↦ pos 0 ]))
  number_of v = no_number
