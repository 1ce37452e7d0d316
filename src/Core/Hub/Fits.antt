-- ===== src/Core/Hub/Fits.antt =====
-- What the verdict of hf_plan says.
use runboard_lcp.Base.{ℕ, ◌≡◌, true, false, List}
use runboard_lcp.Base.Try.{Try}
use runboard_lcp.Core.Disk.{fits}
use runboard_lcp.Core.Floats.{Floats}
use runboard_lcp.Core.Hub.{Hub, Choice}
use mathlib.Core.List.{Memᴰ}

module _ (fl : Floats) where
  open fl use {F, lit, add, gt}

  -- The order of the numbers, where none is a NaN.
  pub record Ordered (h : Hub fl) : Type 0 where
    pub not_above_itself : (x : F) → gt x x ≡ false
    pub not_below : (x y : F) → gt x y ≡ true → gt y x ≡ false
    pub not_above : (x y z : F) → gt x y ≡ false → gt y z ≡ false → gt x z ≡ false
    pub add_not_above : (x y k : F) → gt x y ≡ false → gt (add x k) (add y k) ≡ false
    pub is_zero : h.is_zero (lit 0) ≡ true
    pub above_zero : (x : F) → gt x (lit 0) ≡ true → h.is_zero x ≡ false

  module _ (h : Hub fl) where
    -- The size and the verdict of each choice.
    record IsChoice (free : F) (c : Choice fl h) : Type 0 where
      pub above : gt c.sized.gb (lit 0) ≡ true
      pub judged : c.verdict ≡ fits fl free c.sized.gb

    Judged : F → List (Choice fl h) → Type 0
    Judged free cs = (c : Choice fl h) → Memᴰ c cs → IsChoice free c

    -- Each measurement finds this free space.
    abbrev Steady : F → (ℕ → F) → Type 0
    Steady space free = (i : ℕ) → free i ≡ space
