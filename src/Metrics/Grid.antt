-- ===== src/Metrics/Grid.antt =====
-- on_grid of engine_metrics.py.
pub mod Latest
use runboard_lcp.Base.{
  ℕ, zero, suc, ◌+◌, ◌-◌, ◌*◌, ◌/◌, ◌%◌, Bool, true, false, Option, none, some, List, [], ◌∷◌, ltb,
  leb, ◌=ℕ=◌, if◌then◌else◌,
}

-- A point of a series: its time, in seconds, and its value.
pub record Point (V : Type 0) : Type 0 where
  pub t : ℕ
  pub v : V

-- `int(round(d / step))`: a half goes to the even neighbour.
unfoldable pub round_quotient : ℕ → ℕ → ℕ
round_quotient d step =
    let q = d / step in
    let r = 2 * (d % step) in
    if ltb r step then q else if ltb step r then suc q else if q % 2 =ℕ= 0 then q else suc q

-- The index of a time on the grid; `none` where it is negative. A time before the start may round to 0.
unfoldable pub grid_index : ℕ → ℕ → ℕ → Option ℕ
unfolding round_quotient
grid_index start step t =
    if leb start t
    then some (round_quotient (t - start) step)
    else if round_quotient (start - t) step =ℕ= 0
    then some 0
    else none

module _ {V : Type 0} where
  -- `out[i] = v`, where `i` is in range.
  unfoldable pub set_at : ℕ → V → List (Option V) → List (Option V)
  set_at i v [] = []
  set_at zero v (x ∷ xs) = some v ∷ xs
  set_at (suc i) v (x ∷ xs) = x ∷ set_at i v xs

  unfoldable pub set_indexed : Option ℕ → V → List (Option V) → List (Option V)
  unfolding set_at
  set_indexed none v out = out
  set_indexed (some i) v out = set_at i v out

  unfoldable pub fill : ℕ → ℕ → List (Point V) → List (Option V) → List (Option V)
  unfolding set_indexed grid_index
  fill start step [] out = out
  fill start step (p ∷ ps) out =
      fill start step ps (set_indexed (grid_index start step p.t) p.v out)

  -- `[None] * n`
  unfoldable pub gaps : ℕ → List (Option V)
  gaps zero = []
  gaps (suc n) = none ∷ gaps n

  unfoldable pub on_grid : List (Point V) → ℕ → ℕ → ℕ → List (Option V)
  unfolding fill gaps
  on_grid points start step n = fill start step points (gaps n)
