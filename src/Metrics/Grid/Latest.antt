-- ===== src/Metrics/Grid/Latest.antt =====
-- What stands at each index of the grid.
use Prim.Native.Nat.{◌<◌}
use native.Mathlib.Nat.{mul-div_cancel, mul-mod_left}
use runboard_lcp.Base.{
  ℕ, zero, suc, ◌+◌, ◌-◌, ◌*◌, ◌≡◌, refl, ◌∙◌, ap, Bool, false, Option, none, some, List, [], ◌∷◌,
  length, arith, ◌=ℕ=◌, if◌then◌else◌,
}
use runboard_lcp.Metrics.Grid.{
  Point, round_quotient, grid_index, set_at, set_indexed, fill, gaps, on_grid,
}

length-gaps : (V : Type 0) (n : ℕ) → length (gaps {V = V} n) ≡ n
unfolding gaps
length-gaps V zero = refl
length-gaps V (suc n) = ap suc (length-gaps V n)

abbrev is_index : Option ℕ → ℕ → Bool
is_index none i = false
is_index (some j) i = j =ℕ= i

module _ {V : Type 0} where
  length-set_at : (i : ℕ) (v : V) (out : List (Option V)) → length (set_at i v out) ≡ length out
  unfolding set_at
  length-set_at i v [] = refl
  length-set_at zero v (x ∷ xs) = refl
  length-set_at (suc i) v (x ∷ xs) = ap suc (length-set_at i v xs)

  length-set_indexed :
      (o : Option ℕ) (v : V) (out : List (Option V)) → length (set_indexed o v out) ≡ length out
  unfolding set_indexed
  length-set_indexed none v out = refl
  length-set_indexed (some i) v out = length-set_at i v out

  length-fill :
      (start step : ℕ) (ps : List (Point V)) (out : List (Option V))
      → length (fill start step ps out) ≡ length out
  unfolding fill
  length-fill start step [] out = refl
  length-fill start step (p ∷ ps) out =
      length-fill start step ps _ ∙ length-set_indexed (grid_index start step p.t) p.v out

  -- `out[i]`, `none` for a gap and past the end.
  abbrev pub value_at : ℕ → List (Option V) → Option V
  value_at i [] = none
  value_at zero (x ∷ xs) = x
  value_at (suc i) (x ∷ xs) = value_at i xs

  -- The value of the last point that belongs to the index, `old` where there is none.
  unfoldable pub latest : ℕ → ℕ → ℕ → List (Point V) → Option V → Option V
  latest start step i [] old = old
  latest start step i (p ∷ ps) old =
      latest start step i ps (if is_index (grid_index start step p.t) i then some p.v else old)

  value_at-set_at :
      (i j : ℕ) (v : V) (out : List (Option V))
      → i < length out
      → value_at i (set_at j v out) ≡ (if j =ℕ= i then some v else value_at i out)
  unfolding set_at
  value_at-set_at i j v [] h = absurd (omega arith)
  value_at-set_at zero zero v (x ∷ xs) h = refl
  value_at-set_at zero (suc j) v (x ∷ xs) h = ground arith
  value_at-set_at (suc i) zero v (x ∷ xs) h = ground arith
  value_at-set_at (suc i) (suc j) v (x ∷ xs) h = ground (arith, value_at-set_at i j v xs)

  value_at-set_indexed :
      (i : ℕ) (o : Option ℕ) (v : V) (out : List (Option V))
      → i < length out
      → value_at i (set_indexed o v out) ≡ (if is_index o i then some v else value_at i out)
  unfolding set_indexed
  value_at-set_indexed i none v out h = refl
  value_at-set_indexed i (some j) v out h = value_at-set_at i j v out h

  value_at-fill :
      (start step i : ℕ) (ps : List (Point V)) (out : List (Option V))
      → i < length out
      → value_at i (fill start step ps out) ≡ latest start step i ps (value_at i out)
  unfolding fill latest
  value_at-fill start step i [] out h = refl
  value_at-fill start step i (p ∷ ps) out h =
      value_at-fill start step i ps (set_indexed (grid_index start step p.t) p.v out)
        (omega (arith, length-set_indexed (grid_index start step p.t) p.v out))
      ∙ ap (latest start step i ps) (value_at-set_indexed i (grid_index start step p.t) p.v out h)

  value_at-gaps : (i n : ℕ) → value_at i (gaps {V = V} n) ≡ none
  unfolding gaps
  value_at-gaps i zero = refl
  value_at-gaps zero (suc n) = refl
  value_at-gaps (suc i) (suc n) = value_at-gaps i n

  -- The grid has one slot for each of its times, and each slot holds the value of the last point that
  -- belongs to it, or a gap where none does: no point moves another one's value.
  pub on_grid-latest :
      (points : List (Point V)) (start step n : ℕ)
      → (length (on_grid points start step n) ≡ n)
        × ((i : ℕ)
            → i < n
            → value_at i (on_grid points start step n) ≡ latest start step i points none)
  unfolding on_grid
  on_grid-latest points start step n = (
    length-fill start step points (gaps n) ∙ length-gaps V n,
    λ i h.
        value_at-fill start step i points (gaps n) (omega (arith, length-gaps V n))
        ∙ ap (latest start step i points) (value_at-gaps i n),
  )

-- A time on the grid has its own index: with a step that is not 0, the time `i` steps behind the start
-- belongs to slot `i`.
pub grid_index_exact :
    (start step i : ℕ) → 0 < step → grid_index start step (start + i * step) ≡ some i
unfolding grid_index round_quotient
grid_index_exact start step i h =
    let behind : start + i * step - start ≡ i * step = omega arith in
    ground (arith, behind, mul-div_cancel i h, mul-mod_left step i)
