-- ===== src/Metrics/Recent.antt =====
-- recent of engine_metrics.py: what the engine generated in the last hour, and when it last did.
pub mod Age
use runboard_lcp.Base.{
  ℕ, ◌-◌, String, Bool, true, false, Option, none, some, List, [], ◌∷◌, if◌then◌else◌,
}
use runboard_lcp.Base.Int.{ℤ, pos}
use runboard_lcp.Base.Try.{Try, ok, ◌>>=◌}
use runboard_lcp.Metrics.Grid.{Point}
use runboard_lcp.Metrics.Names.{Family, aliases_of, replace_each}
use runboard_lcp.Metrics.Prom.{Prometheus, prom_range}
use runboard_lcp.Metrics.Reals.{Reals}

-- RECENT_S and RECENT_STEP_S
abbrev pub recent_s : ℕ
recent_s = 3600

abbrev pub recent_step_s : ℕ
recent_step_s = 30

-- GEN_COUNTER_EXPR, in the names of a family
unfoldable pub counter_expr : Family → String
unfolding aliases_of replace_each
counter_expr family = replace_each (aliases_of family) "sum(vllm:generation_tokens_total)"

module _ (rl : Reals) where
  open rl use {R}

  -- The tokens of the window and the seconds since the last of them; `none` draws a dash.
  pub record Recent : Type 0 where
    pub tokens : Option ℤ
    pub age : Option ℕ

  -- What the loop carries: the tokens so far, and the time of the last step that rose.
  pub record Count : Type 0 where
    pub sum : R
    pub last : Option ℕ

  unfoldable pub count_step : R → Point R → Count → Count
  count_step prev p c =
      if rl.is_pos (rl.sub p.v prev)
      then record { sum = rl.add c.sum (rl.sub p.v prev); last = some p.t }
      else c

  unfoldable pub count_steps : R → List (Point R) → Count → Count
  unfolding count_step
  count_steps prev [] c = c
  count_steps prev (p ∷ ps) c = count_steps p.v ps (count_step prev p c)

  -- `max(0, now - last)` is the difference of natural numbers.
  unfoldable pub recent_of_count : ℕ → R → Option ℕ → Recent
  recent_of_count now sum none = record { tokens = some (pos 0); age = none }
  recent_of_count now sum (some last) = record {
    tokens = some (rl.round_int sum);
    age = some (now - last);
  }

  unfoldable pub recent_of : ℕ → List (Point R) → Recent
  unfolding count_steps recent_of_count
  recent_of now (p ∷ q ∷ ps) =
      let c = count_steps p.v (q ∷ ps) (record { sum = rl.zero; last = none }) in
      recent_of_count now c.sum c.last
  recent_of now ps = record { tokens = none; age = none }

  unfoldable pub recent : Prometheus rl → Family → ℕ → Try Recent
  unfolding counter_expr prom_range recent_of
  recent p family now =
      prom_range rl p (counter_expr family) recent_s recent_step_s now >>= λ points.
      ok (recent_of now points)
