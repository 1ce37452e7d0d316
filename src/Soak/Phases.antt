-- ===== src/Soak/Phases.antt =====
-- The function main of load_soak.py: the phases and the end of the run.
use runboard_lcp.Base.{
  ℕ, zero, suc, String, Bool, true, false, not, ◌&&◌, Option, none, some, List, [], ◌∷◌, ◌++◌,
  length, take, map, if◌then◌else◌,
}
use runboard_lcp.Base.Int.{pos}
use runboard_lcp.Metrics.Reals.{Reals}
use runboard_lcp.Soak.Prompts.{LoadPhase}
use runboard_lcp.Soak.State.{
  Served, Totals, Tally, Shape, PhaseResult, PhaseEntry, Series, State, Soak, push, write_state, ts,
}
use runboard_lcp.Soak.Telemetry.{Figures, stream_rates, window_tokens, window_elapsed}

abbrev pub is_nil {ℓ} : {A : Type ℓ} → List A → Bool
is_nil [] = true
is_nil (x ∷ xs) = false

module _ (rl : Reals) (fg : Figures rl) where
  open rl use {R}

  abbrev published_entry : LoadPhase rl → PhaseEntry rl
  published_entry p = record {
    name = p.name;
    c = p.c;
    minutes = p.minutes;
    done = false;
    result = none;
  }

  abbrev no_series : Series R
  no_series = record {
    ts = [];
    agg_tps = [];
    stream_tps = [];
    gpu_power = [];
    gpu_temp = [];
    gpu_util = [];
    mem_avail_gb = [];
    inflight = [];
  }

  -- _state as the module makes it, and what main starts with once it has published it
  unfoldable pub first_state : List (LoadPhase rl) → State rl
  first_state phases = record {
    phase = none;
    phase_index = 0;
    phases = map published_entry phases;
    series = no_series;
    totals = record { requests = 0; errors = 0; completion_tokens = rl.zero; elapsed = rl.zero };
    live_agg_tps = none;
    live_stream_tps = none;
    shapes = λ shape. none;
  }

  unfoldable pub launch : List (LoadPhase rl) → Soak rl
  unfolding first_state
  launch phases = record {
    state = first_state phases;
    recent = [];
    window = [];
    errs = 0;
    phase_results = [];
    published = some (first_state phases);
  }

  -- The head of the loop over PHASES
  unfoldable pub begin_phase : ℕ → LoadPhase rl → Soak rl → Soak rl
  begin_phase idx p s = record s {
    state = record s.state { phase = some p.name; phase_index = idx };
    window = [];
    errs = 0;
  }

  -- `statistics.mean(per_stream) or 1`
  abbrev mean_or_one : List R → R
  mean_or_one rates = if rl.is_zero (fg.mean rates) then rl.of_int (pos 1) else fg.mean rates

  abbrev unless_none : List R → (List R → R) → Option R
  unless_none [] f = none
  unless_none (x ∷ xs) f = some (fg.round2 (f (x ∷ xs)))

  abbrev aggregate : R → List (Served rl) → R
  aggregate wall window =
      if rl.is_pos wall then rl.div (window_tokens rl rl.zero window) wall else rl.zero

  abbrev utilization : R → ℕ → List (Served rl) → Option R
  utilization wall conc window =
      if rl.is_pos wall
      then some (
          fg.round3
            (rl.div (window_elapsed rl rl.zero window) (rl.mul wall (rl.of_int (pos conc)))))
      else none

  -- The dict `res` of a phase
  unfoldable pub result_of : LoadPhase rl → R → List String → List (Served rl) → ℕ → PhaseResult rl
  unfolding stream_rates window_tokens window_elapsed
  result_of p wall worker_errors window errs = record {
    phase = p.name;
    concurrency = p.c;
    minutes = p.minutes;
    requests = length window;
    errors = errs;
    wall_seconds = fg.round2 wall;
    total_completion_tokens = window_tokens rl rl.zero window;
    aggregate_tok_s = fg.round2 (aggregate wall window);
    per_stream_mean = unless_none (stream_rates rl window) fg.mean;
    per_stream_p50 = unless_none (stream_rates rl window) fg.median;
    scaling_x =
        unless_none (stream_rates rl window)
          (λ rates. rl.div (aggregate wall window) (mean_or_one rates));
    stream_utilization = utilization wall p.c window;
    worker_error_count = length worker_errors;
    worker_errors = take 5 worker_errors;
    is_ok = not (is_nil window) && is_nil worker_errors;
  }

  -- `phases[idx]["done"] = True`
  unfoldable pub set_done : ℕ → List (PhaseEntry rl) → List (PhaseEntry rl)
  set_done idx [] = []
  set_done zero (e ∷ es) = record e { done = true } ∷ es
  set_done (suc idx) (e ∷ es) = e ∷ set_done idx es

  -- `phases[idx]["result"] = res`
  unfoldable pub set_result : ℕ → PhaseResult rl → List (PhaseEntry rl) → List (PhaseEntry rl)
  set_result idx res [] = []
  set_result zero res (e ∷ es) = record e { result = some res } ∷ es
  set_result (suc idx) res (e ∷ es) = e ∷ set_result idx res es

  -- Once every worker has returned. The telemetry thread may publish the state before the result is there.
  unfoldable pub mark_done : ℕ → Soak rl → Soak rl
  unfolding set_done
  mark_done idx s = record s { state = record s.state { phases = set_done idx s.state.phases } }

  abbrev close_with : ℕ → PhaseResult rl → Soak rl → Soak rl
  close_with idx res s = record s {
    state = record s.state { phases = set_result idx res s.state.phases };
    phase_results = s.phase_results ++ res ∷ [];
  }

  -- The rest of the end of a phase, up to the write of its result; `wall` is what
  -- the phase took and `worker_errors` are the exceptions of its workers.
  unfoldable pub end_phase : ℕ → LoadPhase rl → R → List String → Soak rl → Soak rl
  unfolding result_of set_result write_state
  end_phase idx p wall worker_errors s =
      write_state rl (close_with idx (result_of p wall worker_errors s.window s.errs) s)

  -- `_push("ts", time.time())` at the end of the loop's body
  unfoldable pub stamp : R → Soak rl → Soak rl
  unfolding push
  stamp now s = record s { state = push rl ts (some now) s.state }

  -- summary.json, without the times of the run
  pub record Summary : Type 0 where
    pub phases : List (PhaseResult rl)
    pub totals : Totals rl
    pub shapes : Shape → Option (Tally rl)

  unfoldable pub summary_of : Soak rl → Summary
  summary_of s = record {
    phases = s.phase_results;
    totals = s.state.totals;
    shapes = s.state.shapes;
  }

  -- `[p["phase"] for p in phase_results if p.get("status") != "ok"]`
  unfoldable pub bad_phases : List (PhaseResult rl) → List String
  bad_phases [] = []
  bad_phases (r ∷ rs) = let rest = bad_phases rs in if r.is_ok then rest else r.phase ∷ rest

  -- What main returns.
  unfoldable pub exit_code : Soak rl → ℕ
  unfolding bad_phases
  exit_code s = if is_nil (bad_phases s.phase_results) then 0 else 1

  -- The end of main, with its exit code and its summary
  unfoldable pub end_run : Soak rl → ℕ × Summary × Soak rl
  unfolding exit_code summary_of write_state
  end_run s = (
    exit_code s,
    summary_of s,
    write_state rl (record s { state = record s.state { phase = some "DONE" } }),
  )
