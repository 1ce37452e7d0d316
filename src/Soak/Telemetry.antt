-- ===== src/Soak/Telemetry.antt =====
-- The function telemetry of load_soak.py.
use runboard_lcp.Base.{not, Option, none, some, List, [], ◌∷◌, if◌then◌else◌}
use runboard_lcp.Base.Int.{pos}
use runboard_lcp.Metrics.Reals.{Reals}
use runboard_lcp.Soak.State.{
  Served, State, Soak, push, write_state, ts, agg_tps, stream_tps, gpu_power, gpu_temp, gpu_util,
  mem_avail_gb,
}

module _ (rl : Reals) where
  open rl use {R}

  -- `round2` is `round(x, 2)`, `round3` is `round(x, 3)`, and `mean` and `median` are of `statistics`.
  pub record Figures : Type 0 where
    pub round2 : R → R
    pub round3 : R → R
    pub mean : List R → R
    pub median : List R → R

  -- What nvidia-smi and /proc/meminfo gave, the fields that are pushed.
  pub record Gauges : Type 0 where
    pub power : R
    pub temp : R
    pub util : R
    pub mem_available : Option R

  -- _state["live_window_s"]
  abbrev pub live_window : R
  live_window = rl.of_int (pos 60)

  -- `[r for r in _recent if now - r[0] <= win]`
  unfoldable pub in_window : R → R → List (Served rl) → List (Served rl)
  in_window now win [] = []
  in_window now win (r ∷ rs) =
      let rest = in_window now win rs in
      if not (rl.is_pos (rl.sub (rl.sub now r.at) win)) then r ∷ rest else rest

  -- `[c / e for … if e > 0]`
  unfoldable pub stream_rates : List (Served rl) → List R
  stream_rates [] = []
  stream_rates (r ∷ rs) =
      let rest = stream_rates rs in
      if rl.is_pos r.elapsed then rl.div r.tokens r.elapsed ∷ rest else rest

  -- `sum(…)`, from the left
  unfoldable pub window_tokens : R → List (Served rl) → R
  window_tokens total [] = total
  window_tokens total (r ∷ rs) = window_tokens (rl.add total r.tokens) rs

  unfoldable pub window_elapsed : R → List (Served rl) → R
  window_elapsed total [] = total
  window_elapsed total (r ∷ rs) = window_elapsed (rl.add total r.elapsed) rs

  module _ (fg : Figures) where
    -- The two live rates, or an exception of the mean of no rates, after the first has been set.
    pub data Live : Type 0 where
      two_rates : Option R → Option R → Live
      no_mean : R → Live

    abbrev pub live_of_rates : R → List R → Live
    live_of_rates agg [] = no_mean agg
    live_of_rates agg (x ∷ xs) = two_rates (some agg) (some (fg.round2 (fg.mean (x ∷ xs))))

    unfoldable pub live_of : R → List (Served rl) → Live
    unfolding stream_rates window_tokens
    live_of win [] = two_rates none none
    live_of win (r ∷ rs) =
        live_of_rates (fg.round2 (rl.div (window_tokens rl.zero (r ∷ rs)) win))
          (stream_rates (r ∷ rs))

    unfoldable pub live_rates : R → List (Served rl) → Live
    unfolding live_of in_window
    live_rates now recent = live_of live_window (in_window now live_window recent)

    -- The four values of the reading
    unfoldable pub push_reading : Gauges → State rl → State rl
    unfolding push
    push_reading g s = push rl mem_avail_gb g.mem_available (
        push rl gpu_util (some g.util)
          (push rl gpu_temp (some g.temp) (push rl gpu_power (some g.power) s)))

    abbrev with_live : Option R → Option R → State rl → State rl
    with_live agg stream s = record s { live_agg_tps = agg; live_stream_tps = stream }

    unfoldable pub push_live : R → Live → State rl → State rl
    unfolding push
    push_live now (two_rates agg stream) s =
        push rl ts (some now)
          (push rl stream_tps stream (push rl agg_tps agg (with_live agg stream s)))
    push_live now (no_mean agg) s = record s { live_agg_tps = some agg }

    abbrev publish : Live → Soak rl → Soak rl
    publish (two_rates agg stream) s = write_state rl s
    publish (no_mean agg) s = s

    -- What a round does under the lock.
    unfoldable pub note_round : R → Gauges → Live → Soak rl → Soak rl
    unfolding push_reading push_live write_state
    note_round now g live s =
        publish live (record s { state = push_live now live (push_reading g s.state) })

    -- A round of the thread whose reading was taken. A round that reads nothing changes nothing.
    unfoldable pub sample : R → Gauges → Soak rl → Soak rl
    unfolding live_rates note_round
    sample now g s = note_round now g (live_rates now s.recent) s
