-- ===== src/Soak/Lengths.antt =====
-- The lengths of the series of load_soak.py over a run.
use runboard_lcp.Base.{ℕ, suc, ◌+◌, ◌≤◌, ◌≡◌, ◌∙◌, ap, refl, List, [], length, arith}
use runboard_lcp.Metrics.Reals.{Reals}
use runboard_lcp.Soak.Prompts.{LoadPhase}
use runboard_lcp.Soak.Events.{
  Stage, before, within, marked, closing, Log, log_post, log_round, log_stamp, SoakRun, launched,
  begun, posted, sampled, finished, ended, stamped,
}
use runboard_lcp.Soak.Phases.{launch, first_state, begin_phase, mark_done, end_phase, stamp}
use runboard_lcp.Soak.State.{Shape, Series, Soak, push, write_state, series_max, series_at}
use runboard_lcp.Soak.State.Capped.{length-append_capped}
use runboard_lcp.Soak.Telemetry.{
  Figures, Gauges, Live, two_rates, no_mean, live_rates, sample, note_round, push_reading,
  push_live,
}
use runboard_lcp.Soak.Worker.{Posted, answered, failed, turn, note_served, note_failed}
use Prim.Native.Nat.{min}
use native.Mathlib.Nat.{suc-add, add-suc}

module _ (rl : Reals) (fg : Figures rl) where
  open rl use {R}

  -- The phases that have ended
  abbrev pub stamps_at : Stage rl fg → ℕ
  stamps_at (before idx) = idx
  stamps_at (within idx p) = idx
  stamps_at (marked idx p) = idx
  stamps_at (closing idx) = idx

  -- The lengths of the series after the rounds and the stamps of a run
  pub record Lengths (rounds whole stamps : ℕ) (s : Series R) : Type 0 where
    pub fewer : whole ≤ rounds
    pub gpu_power : length s.gpu_power ≡ min series_max rounds
    pub gpu_temp : length s.gpu_temp ≡ min series_max rounds
    pub gpu_util : length s.gpu_util ≡ min series_max rounds
    pub mem_avail_gb : length s.mem_avail_gb ≡ min series_max rounds
    pub agg_tps : length s.agg_tps ≡ min series_max whole
    pub stream_tps : length s.stream_tps ≡ min series_max whole
    pub ts : length s.ts ≡ min series_max (whole + stamps)
    pub inflight : s.inflight ≡ []

  -- The lengths that a log gives
  abbrev pub LengthsOf : Log rl fg → Soak rl → Type 0
  LengthsOf log s = Lengths log.rounds log.whole log.stamps s.state.series

  note_round-Lengths :
      (log : Log rl fg) (s : Soak rl) (now : R) (reading : Gauges rl) (live : Live rl fg)
      → LengthsOf log s
      → LengthsOf (log_round rl fg live log) (note_round rl fg now reading live s)
  unfolding note_round push_reading push_live push write_state series_at
  note_round-Lengths log s now reading (two_rates agg stream) h = record {
    fewer = omega (arith, h.fewer);
    gpu_power = length-append_capped series_max _ log.rounds _ h.gpu_power;
    gpu_temp = length-append_capped series_max _ log.rounds _ h.gpu_temp;
    gpu_util = length-append_capped series_max _ log.rounds _ h.gpu_util;
    mem_avail_gb = length-append_capped series_max _ log.rounds _ h.mem_avail_gb;
    agg_tps = length-append_capped series_max _ log.whole _ h.agg_tps;
    stream_tps = length-append_capped series_max _ log.whole _ h.stream_tps;
    ts = rw suc-add (length-append_capped series_max _ (log.whole + log.stamps) _ h.ts);
    inflight = h.inflight;
  }
  note_round-Lengths log s now reading (no_mean agg) h = record {
    fewer = omega (arith, h.fewer);
    gpu_power = length-append_capped series_max _ log.rounds _ h.gpu_power;
    gpu_temp = length-append_capped series_max _ log.rounds _ h.gpu_temp;
    gpu_util = length-append_capped series_max _ log.rounds _ h.gpu_util;
    mem_avail_gb = length-append_capped series_max _ log.rounds _ h.mem_avail_gb;
    agg_tps = h.agg_tps;
    stream_tps = h.stream_tps;
    ts = h.ts;
    inflight = h.inflight;
  }

  stamp-Lengths :
      (log : Log rl fg) (s : Soak rl) (now : R)
      → LengthsOf log s
      → LengthsOf (log_stamp rl fg log) (stamp rl fg now s)
  unfolding stamp push series_at
  stamp-Lengths log s now h = record {
    fewer = h.fewer;
    gpu_power = h.gpu_power;
    gpu_temp = h.gpu_temp;
    gpu_util = h.gpu_util;
    mem_avail_gb = h.mem_avail_gb;
    agg_tps = h.agg_tps;
    stream_tps = h.stream_tps;
    ts = rw add-suc (length-append_capped series_max _ (log.whole + log.stamps) _ h.ts);
    inflight = h.inflight;
  }

  turn-Lengths :
      (log : Log rl fg) (s : Soak rl) (shape : Shape) (now : R) (r : Posted rl)
      → LengthsOf log s
      → LengthsOf (log_post rl fg shape now r log) (turn rl shape now r s)
  unfolding turn note_served note_failed
  turn-Lengths log s shape now (answered pt ct el fr rate) h = h
  turn-Lengths log s shape now (failed error el) h = h

  SoakRun-LengthsOf :
      (phases : List (LoadPhase rl)) {g : Stage rl fg} {log : Log rl fg} {s : Soak rl}
      → SoakRun rl fg phases g log s
      → LengthsOf log s
  unfolding launch first_state begin_phase mark_done end_phase sample write_state
  SoakRun-LengthsOf phases launched = record {
    fewer = omega arith;
    gpu_power = refl;
    gpu_temp = refl;
    gpu_util = refl;
    mem_avail_gb = refl;
    agg_tps = refl;
    stream_tps = refl;
    ts = refl;
    inflight = refl;
  }
  SoakRun-LengthsOf phases (begun run p e) = SoakRun-LengthsOf phases run
  SoakRun-LengthsOf phases (posted {log = log} {s = s} run shape now r) =
      turn-Lengths log s shape now r (SoakRun-LengthsOf phases run)
  SoakRun-LengthsOf phases (sampled {log = log} {s = s} run now reading) =
      note_round-Lengths log s now reading (live_rates rl fg now s.recent)
        (SoakRun-LengthsOf phases run)
  SoakRun-LengthsOf phases (finished run) = SoakRun-LengthsOf phases run
  SoakRun-LengthsOf phases (ended run wall worker_errors) = SoakRun-LengthsOf phases run
  SoakRun-LengthsOf phases (stamped {log = log} {s = s} run now) =
      stamp-Lengths log s now (SoakRun-LengthsOf phases run)

  log_post-stamps :
      (log : Log rl fg) (shape : Shape) (now : R) (r : Posted rl)
      → (log_post rl fg shape now r log).stamps ≡ log.stamps
  log_post-stamps log shape now (answered pt ct el fr rate) = refl
  log_post-stamps log shape now (failed error el) = refl

  log_round-stamps :
      (log : Log rl fg) (live : Live rl fg) → (log_round rl fg live log).stamps ≡ log.stamps
  log_round-stamps log (two_rates agg stream) = refl
  log_round-stamps log (no_mean agg) = refl

  SoakRun-stamps :
      (phases : List (LoadPhase rl)) {g : Stage rl fg} {log : Log rl fg} {s : Soak rl}
      → SoakRun rl fg phases g log s
      → log.stamps ≡ stamps_at g
  SoakRun-stamps phases launched = refl
  SoakRun-stamps phases (begun run p e) = SoakRun-stamps phases run
  SoakRun-stamps phases (posted {log = log} run shape now r) =
      log_post-stamps log shape now r ∙ SoakRun-stamps phases run
  SoakRun-stamps phases (sampled {log = log} {s = s} run now reading) =
      log_round-stamps log (live_rates rl fg now s.recent) ∙ SoakRun-stamps phases run
  SoakRun-stamps phases (finished run) = SoakRun-stamps phases run
  SoakRun-stamps phases (ended run wall worker_errors) = SoakRun-stamps phases run
  SoakRun-stamps phases (stamped run now) = ap (λ n. suc n) (SoakRun-stamps phases run)

  -- Through every run each series has one item for each round of the telemetry thread, of which
  -- the last 900 are kept, save that the two rates have none for a round that raised, that the
  -- times have none for such a round and one more for each phase that has ended, and that
  -- inflight stays empty.
  pub SoakRun-Lengths :
      (phases : List (LoadPhase rl)) {g : Stage rl fg} {log : Log rl fg} {s : Soak rl}
      → SoakRun rl fg phases g log s
      → Lengths log.rounds log.whole (stamps_at g) s.state.series
  SoakRun-Lengths phases {log = log} {s} run =
      rw (← SoakRun-stamps phases run) (SoakRun-LengthsOf phases run)
