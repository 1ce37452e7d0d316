-- ===== src/Soak/State.antt =====
-- _state, _recent, _push and write_state of load_soak.py.
pub mod Capped
use runboard_lcp.Base.{
  ℕ, suc, ◌+◌, String, Bool, Option, some, List, ◌∷◌, ◌++◌, [], ltb, length, last_n, if◌then◌else◌,
}
use runboard_lcp.Metrics.Reals.{Reals}

-- SERIES_MAX, and the `maxlen` of _recent
abbrev pub series_max : ℕ
series_max = 900

abbrev pub recent_max : ℕ
recent_max = 800

-- SHAPES
pub data Shape : Type 0 where
  chat_short code_gen doc_summary tool_call deep_reason : Shape

-- The keys of the series.
pub data Key : Type 0 where
  ts agg_tps stream_tps gpu_power gpu_temp gpu_util mem_avail_gb inflight : Key

-- The list that a key names; an item is `None` where it is missing.
pub record Series (R : Type 0) : Type 0 where
  pub ts : List (Option R)
  pub agg_tps : List (Option R)
  pub stream_tps : List (Option R)
  pub gpu_power : List (Option R)
  pub gpu_temp : List (Option R)
  pub gpu_util : List (Option R)
  pub mem_avail_gb : List (Option R)
  pub inflight : List (Option R)

unfoldable pub series_at : {R : Type 0} → Key → Series R → List (Option R)
series_at ts s = s.ts
series_at agg_tps s = s.agg_tps
series_at stream_tps s = s.stream_tps
series_at gpu_power s = s.gpu_power
series_at gpu_temp s = s.gpu_temp
series_at gpu_util s = s.gpu_util
series_at mem_avail_gb s = s.mem_avail_gb
series_at inflight s = s.inflight

abbrev pub with_series : {R : Type 0} → Key → List (Option R) → Series R → Series R
with_series ts xs s = record s { ts = xs }
with_series agg_tps xs s = record s { agg_tps = xs }
with_series stream_tps xs s = record s { stream_tps = xs }
with_series gpu_power xs s = record s { gpu_power = xs }
with_series gpu_temp xs s = record s { gpu_temp = xs }
with_series gpu_util xs s = record s { gpu_util = xs }
with_series mem_avail_gb xs s = record s { mem_avail_gb = xs }
with_series inflight xs s = record s { inflight = xs }

-- `s.append(value)`, and `del s[:-limit]` where it has become too long
unfoldable pub append_capped {ℓ} : {A : Type ℓ} → ℕ → A → List A → List A
append_capped limit x xs =
    if ltb limit (length (xs ++ x ∷ [])) then last_n limit (xs ++ x ∷ []) else xs ++ x ∷ []

module _ (rl : Reals) where
  open rl use {R}

  -- A request that was answered: (ts, completion_tokens, elapsed).
  pub record Served : Type 0 where
    pub at : R
    pub tokens : R
    pub elapsed : R

  -- The totals of the run.
  pub record Totals : Type 0 where
    pub requests : ℕ
    pub errors : ℕ
    pub completion_tokens : R
    pub elapsed : R

  -- An entry of the dict `shapes`.
  pub record Tally : Type 0 where
    pub n : ℕ
    pub tokens : R
    pub elapsed : R

  pub record PhaseResult : Type 0 where
    pub phase : String
    pub concurrency : ℕ
    pub minutes : R
    pub requests : ℕ
    pub errors : ℕ
    pub wall_seconds : R
    pub total_completion_tokens : R
    pub aggregate_tok_s : R
    pub per_stream_mean : Option R
    pub per_stream_p50 : Option R
    pub scaling_x : Option R
    pub stream_utilization : Option R
    pub worker_error_count : ℕ
    pub worker_errors : List String
    pub is_ok : Bool

  -- A phase of the run as it is published, with its result once it is done.
  pub record PhaseEntry : Type 0 where
    pub name : String
    pub c : ℕ
    pub minutes : R
    pub done : Bool
    pub result : Option PhaseResult

  -- _state
  pub record State : Type 0 where
    pub phase : Option String
    pub phase_index : ℕ
    pub phases : List PhaseEntry
    pub series : Series R
    pub totals : Totals
    pub live_agg_tps : Option R
    pub live_stream_tps : Option R
    pub shapes : Shape → Option Tally

  -- The globals, what main keeps between the phases and in one, and the file state.json.
  pub record Soak : Type 0 where
    pub state : State
    pub recent : List Served
    pub window : List Served
    pub errs : ℕ
    pub phase_results : List PhaseResult
    pub published : Option State

  -- _push
  unfoldable pub push : Key → Option R → State → State
  unfolding append_capped series_at
  push key value s = record s {
    series = with_series key (append_capped series_max value (series_at key s.series)) s.series;
  }

  -- write_state
  unfoldable pub write_state : Soak → Soak
  write_state s = record s { published = some s.state }
