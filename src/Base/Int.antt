-- ===== src/Base/Int.antt =====
-- Python's integers over the native numbers; `negsuc n` is -(n + 1).
use runboard_lcp.Base.{ℕ, Bool, false, leb}

pub data ℤ : Type 0 where
  pos : ℕ → ℤ
  negsuc : ℕ → ℤ

-- `lo <= i <= hi`
abbrev pub between : ℕ → ℕ → ℤ → Bool
between lo hi (pos n) = elim (leb lo n) [ Bool.true ↦ leb n hi | Bool.false ↦ false ]
between lo hi (negsuc n) = false
