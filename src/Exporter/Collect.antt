-- ===== src/Exporter/Collect.antt =====
-- load_metrics, dispatch_metrics and collect of zgx_exporter.py.
use runboard_lcp.Base.{
  ℕ, ◌+◌, String, Bool, true, false, Option, none, some, List, [], ◌∷◌, ◌++◌, ◌==◌, is_empty,
  show_nat, if◌then◌else◌,
}
use runboard_lcp.Base.Int.{ℤ, pos, negsuc}
use runboard_lcp.Base.Try.{Try, ok, raised, type_error, attribute_error, value_error, ◌>>=◌}
use runboard_lcp.Core.JobId.{Texts, str_of}
use runboard_lcp.Exporter.{Gauge, exposition}
use runboard_lcp.Exporter.Sampling.{Gpu, sample_gpu, sample_mem, serving_up}
use runboard_lcp.Json.{Json, Items, Fields, null, bool, int, float, str, obj, nil, cons, lookup}
use runboard_lcp.Json.Falsy.{is_falsy, get, truthy, items_or_none}

abbrev pub plain_gauge : String → Option String → String → Gauge
plain_gauge name value help = record { name = name; value = value; labels = []; help = help }

module _ {F : Type 0} (t : Texts F) where
  -- `ratio agg p50` is `round(agg / p50, 3)`, and `rounded2` is `round(x, 2)`, each as text;
  -- `in_range x n` is `0 <= x < n`; `correct` is what
  -- `overlay` of corrected_metrics.py makes of a state.
  pub record Numbers : Type 0 where
    pub is_zero : F → Bool
    pub in_range : F → ℕ → Bool
    pub ratio : Json F → Json F → Try String
    pub rounded2 : Json F → Try String
    pub float_text : String → Option String
    pub int_text : ℤ → String
    pub correct : Fields F → Fields F

  -- The text of a value that is not `None`.
  unfoldable pub value_text : Option (Json F) → Option String
  unfolding str_of
  value_text none = none
  value_text (some null) = none
  value_text (some v) = some (str_of t v)

  module _ (n : Numbers) where
    -- `(d.get(key) or {})`, to take fields of: what is no dict has no `get`.
    unfoldable pub dict_or_empty : Option (Json F) → Try (Fields F)
    dict_or_empty none = ok Fields.end
    dict_or_empty (some v) = if is_falsy n.is_zero v then ok Fields.end else fields_of v
      where
        fields_of : Json F → Try (Fields F)
        fields_of (obj d) = ok d
        fields_of v = raised attribute_error

    unfoldable pub totals_gauges : Fields F → Try (List Gauge)
    unfolding value_text truthy lookup
    totals_gauges d = do
      elapsed ← elapsed_text (truthy n.is_zero (lookup "elapsed" d))
      ok (
          plain_gauge "zgx_load_requests_total" (value_text (lookup "requests" d)) ""
          ∷ plain_gauge "zgx_load_errors_total" (value_text (lookup "errors" d)) ""
          ∷ plain_gauge "zgx_load_completion_tokens_total"
              (value_text (lookup "completion_tokens" d)) ""
          ∷ plain_gauge "zgx_load_elapsed_seconds_total" elapsed ""
          ∷ [])
      where
        elapsed_text : Option (Json F) → Try (Option String)
        elapsed_text none = ok none
        elapsed_text (some v) = do s ← n.rounded2 v; ok (some s)

    unfoldable pub nth_item : ℕ → Items F → Option (Json F)
    nth_item i nil = none
    nth_item ℕ.zero (cons v vs) = some v
    nth_item (ℕ.suc i) (cons v vs) = nth_item i vs

    unfoldable pub count : Items F → ℕ
    count nil = 0
    count (cons v vs) = 1 + count vs

    abbrev at_index : ℤ → Items F → Option (Json F)
    at_index (pos i) phases = nth_item i phases
    at_index (negsuc i) phases = none

    -- The phase that runs, where the index is an integer in range.
    unfoldable pub phase_at : Option (Json F) → Items F → Try (Option (Json F))
    unfolding nth_item count
    phase_at none phases = ok none
    phase_at (some null) phases = ok none
    phase_at (some (int i)) phases = ok (at_index i phases)
    phase_at (some (bool false)) phases = ok (at_index (pos 0) phases)
    phase_at (some (bool true)) phases = ok (at_index (pos 1) phases)
    phase_at (some (float x)) phases =
        if n.in_range x (count phases) then raised type_error else ok none
    phase_at (some v) phases = raised type_error

    unfoldable pub phase_gauges : Option (Json F) → Try (List Gauge)
    unfolding value_text get
    phase_gauges none = ok []
    phase_gauges (some p) = do
      c ← get "c" p
      minutes ← get "minutes" p
      ok (
          plain_gauge "zgx_load_phase_concurrency" (value_text c)
            "concurrency level of the phase currently running"
          ∷ plain_gauge "zgx_load_phase_minutes" (value_text minutes) ""
          ∷ [])

    abbrev text_or_none : Option (Json F) → String
    text_or_none none = "None"
    text_or_none (some null) = "None"
    text_or_none (some v) = str_of t v

    -- `round(agg / p50, 3) if (agg and p50) else None`
    unfoldable pub fallback_scale : Option (Json F) → Option (Json F) → Try (Option String)
    fallback_scale (some agg) (some p50) = do s ← n.ratio agg p50; ok (some s)
    fallback_scale agg p50 = ok none

    unfoldable pub scale_of : Fields F → Try (Option String)
    unfolding value_text fallback_scale truthy lookup
    scale_of r = elim (value_text (lookup "scaling_x" r)) [
      | some s ↦ ok (some s)
      | none ↦
          fallback_scale (truthy n.is_zero (lookup "aggregate_tok_s" r))
            (truthy n.is_zero (lookup "per_stream_p50" r))
    ]

    unfoldable pub result_gauges : List (String × String) → Fields F → Try (List Gauge)
    unfolding value_text scale_of lookup
    result_gauges labels r = do
      scale ← scale_of r
      ok (
          labelled "zgx_load_phase_aggregate_tok_s" (value_text (lookup "aggregate_tok_s" r)) ""
          ∷ labelled "zgx_load_phase_per_stream_mean_tok_s"
              (value_text (lookup "per_stream_mean" r)) ""
          ∷ labelled "zgx_load_phase_per_stream_p50_tok_s" (value_text (lookup "per_stream_p50" r))
              ""
          ∷ labelled "zgx_load_phase_requests" (value_text (lookup "requests" r)) ""
          ∷ labelled "zgx_load_phase_errors" (value_text (lookup "errors" r)) ""
          ∷ labelled "zgx_load_phase_scaling_x" scale
              "aggregate wall-clock tok/s divided by per-stream mean tok/s"
          ∷ [])
      where
        labelled : String → Option String → String → Gauge
        labelled name value help = record {
          name = name;
          value = value;
          labels = labels;
          help = help;
        }

    -- The gauges of one phase, if it has a result.
    unfoldable pub one_result : Json F → Try (List Gauge)
    unfolding get truthy result_gauges
    one_result ph = do
      r ← get "result" ph
      name ← get "name" ph
      c ← get "c" ph
      of_result (("phase", text_or_none name) ∷ ("concurrency", text_or_none c) ∷ [])
          (truthy n.is_zero r)
      where
        of_result : List (String × String) → Option (Json F) → Try (List Gauge)
        of_result labels none = ok []
        of_result labels (some (obj r)) = result_gauges labels r
        of_result labels (some v) = raised attribute_error

    unfoldable pub all_results : Items F → Try (List Gauge)
    unfolding one_result
    all_results nil = ok []
    all_results (cons ph phs) =
        let rest = all_results phs in do gs ← one_result ph; others ← rest; ok (gs ++ others)

    abbrev is_done : Option (Json F) → Bool
    is_done (some (str s)) = s == "DONE"
    is_done v = false

    -- `age` is the text of the age of the state's file.
    unfoldable pub state_gauges : String → Fields F → Try (List Gauge)
    unfolding value_text dict_or_empty totals_gauges items_or_none phase_at phase_gauges all_results
        lookup
    state_gauges age st = do
      totals ← dict_or_empty (lookup "totals" st)
      counts ← totals_gauges totals
      phases ← items_or_none n.is_zero (lookup "phases" st)
      now ← phase_at (lookup "phase_index" st) phases
      current ← phase_gauges now
      results ← all_results phases
      ok (
          plain_gauge "zgx_load_state_age_seconds" (some age)
              "seconds since the load run last updated its state"
            ∷ plain_gauge "zgx_load_live_aggregate_tok_s" (value_text (lookup "live_agg_tps" st))
                "aggregate decode tok/s = sum(completion tokens finishing in the trailing window) / window seconds, recomputed from the raw request log"
            ∷ plain_gauge "zgx_load_live_per_stream_tok_s"
                (value_text (lookup "live_stream_tps" st))
                "mean per-stream decode tok/s over the trailing window"
            ∷ counts
          ++ current
          ++ plain_gauge "zgx_load_running"
              (some (if is_done (lookup "phase" st) then "0" else "1"))
              "1 while the load run is in a phase, 0 once finished"
            ∷ results)

    -- load_metrics: the state is none where its file cannot be read.
    unfoldable pub load_metrics : String → Option (Json F) → Try (List Gauge)
    unfolding state_gauges
    load_metrics age none = ok []
    load_metrics age (some (obj st)) = state_gauges age (n.correct st)
    load_metrics age (some v) = raised attribute_error

    abbrev state_text : Option (Json F) → String
    state_text none = "unknown"
    state_text (some v) = str_of t v

    abbrev preset_label : Option (Json F) → List (String × String)
    preset_label none = []
    preset_label (some v) = ("preset", str_of t v) ∷ []

    abbrev is_running : Option (Json F) → Bool
    is_running (some (str s)) = s == "running"
    is_running v = false

    -- dispatch_metrics: `age` is none where the file has no time.
    unfoldable pub dispatch_metrics : Option String → Option (Json F) → Try (List Gauge)
    unfolding value_text dict_or_empty truthy lookup
    dispatch_metrics age none = ok []
    dispatch_metrics age (some (obj st)) = do
      job ← dict_or_empty (lookup "job" st)
      ok (
          plain_gauge "zgx_dispatch_active"
            (some (if is_running (lookup "state" st) then "1" else "0"))
            "1 while the dispatcher is executing a job (eval or soak)"
          ∷ plain_gauge "zgx_dispatch_state_age_seconds" age
              "seconds since the dispatcher last wrote its status"
          ∷ plain_gauge "zgx_dispatch_queue_depth" (value_text (lookup "queue_depth" st))
              "queued job files not yet picked up"
          ∷ record {
            name = "zgx_dispatch_state";
            value = some "1";
            labels =
                ("state", state_text (truthy n.is_zero (lookup "state" st)))
                ∷ preset_label (truthy n.is_zero (lookup "preset" job));
            help = "current dispatcher state as a labelled series";
          }
          ∷ [])
    dispatch_metrics age (some v) = raised attribute_error

    -- What a scrape finds: the output of nvidia-smi, the lines of /proc/meminfo, the status of the serving
    -- engine, and the two files with their ages.
    pub record Scrape : Type 0 where
      pub smi : Option String
      pub meminfo : Option (List String)
      pub health : Option ℕ
      pub state : Option (Json F)
      pub state_age : String
      pub dispatch : Option (Json F)
      pub dispatch_age : Option String

    abbrev map_field : (Gpu → String) → Option Gpu → Option String
    map_field f none = none
    map_field f (some g) = some (f g)

    abbrev clock_text : Option String → Try (List Gauge)
    clock_text none = raised value_error
    clock_text (some s) = ok (plain_gauge "zgx_gpu_clock_mhz" (some s) "GPU graphics clock" ∷ [])

    -- `float(gpu["clock"])` is not guarded.
    unfoldable pub clock_gauges : Option Gpu → Try (List Gauge)
    clock_gauges none = ok []
    clock_gauges (some g) = if is_empty g.clock then ok [] else clock_text (n.float_text g.clock)

    abbrev int_value : Option ℤ → Option String
    int_value none = none
    int_value (some i) = some (n.int_text i)

    unfoldable pub scrape_gauges : Scrape → Try (List Gauge)
    unfolding sample_gpu sample_mem serving_up clock_gauges load_metrics dispatch_metrics
    scrape_gauges s = do
      clock ← clock_gauges (sample_gpu n.float_text s.smi)
      load ← load_metrics s.state_age s.state
      dispatch ← dispatch_metrics s.dispatch_age s.dispatch
      ok (
          plain_gauge "zgx_gpu_power_watts"
              (map_field (λ g. g.power) (sample_gpu n.float_text s.smi)) "GPU board power draw"
            ∷ plain_gauge "zgx_gpu_temperature_celsius"
                (map_field (λ g. g.temp) (sample_gpu n.float_text s.smi)) "GPU temperature"
            ∷ plain_gauge "zgx_gpu_utilization_percent"
                (map_field (λ g. g.util) (sample_gpu n.float_text s.smi)) "GPU utilisation"
            ∷ clock
          ++ plain_gauge "zgx_memory_available_bytes" (int_value (sample_mem s.meminfo).available)
              ""
            ∷ plain_gauge "zgx_swap_free_bytes" (int_value (sample_mem s.meminfo).swap_free) ""
            ∷ plain_gauge "zgx_swap_total_bytes" (int_value (sample_mem s.meminfo).swap_total) ""
            ∷ plain_gauge "zgx_serving_up" (some (show_nat (serving_up s.health)))
                "1 if the inference endpoint on :18300 answers health"
            ∷ load
          ++ dispatch)

    -- collect
    unfoldable pub collect : Scrape → Try String
    unfolding scrape_gauges exposition
    collect s = do gs ← scrape_gauges s; ok (exposition gs)
