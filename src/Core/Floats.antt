-- ===== src/Core/Floats.antt =====
-- Python's floating-point numbers, with the operations that the program makes on them.
use runboard_lcp.Base.{ℕ, Bool}
use runboard_lcp.Base.Int.{ℤ}

-- `lit n` is the literal `n.0`, `of_int` the conversion of an integer in the range of a double,
-- `gt` the test `>` (false where a side is NaN) and `giga n` the quotient `n / 1e9`.
pub record Floats : Type 1 where
  pub F : Type 0
  pub lit : ℕ → F
  pub of_int : ℤ → F
  pub add : F → F → F
  pub gt : F → F → Bool
  pub giga : ℕ → F
