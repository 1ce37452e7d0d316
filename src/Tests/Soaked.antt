-- ===== src/Tests/Soaked.antt =====
-- A short load run with one phase, and the theorems on the soak at concrete inputs.
use runboard_lcp.Base.{arith, ◌≢◌, ◌≡◌, ◌↔◌, refl, some, none, [], ◌∷◌, map, length, get_elem?, ◌%◌}
use runboard_lcp.Corrected.{Digits, rolling_aggregate}
use runboard_lcp.Soak.Agrees.{AllLogged, sample-rolling_aggregate}
use runboard_lcp.Soak.Worker.Logged.{RowContext, logged_row}
use runboard_lcp.Base.Assoc.{find_key}
use runboard_lcp.Base.Try.{ok}
use runboard_lcp.Json.{obj, str, field, end, lookup}
use runboard_lcp.Json.Falsy.{truthy, is_falsy}
use runboard_lcp.Soak.Events.{
  within, all_answers, Log, SoakRun, before, launched, begun, posted, sampled, finished, ended,
  stamped, no_log, log_begin, log_post, log_round, log_stamp,
}
use runboard_lcp.Soak.Ledger.{LedgerOf, rows}
use runboard_lcp.Soak.Ledger.Steps.{SoakRun-Ledger}
use runboard_lcp.Soak.Lengths.{Lengths, SoakRun-Lengths}
use runboard_lcp.Soak.Measured.{AllMeasured, end_run-Measured, sum_requests}
use runboard_lcp.Soak.Phases.{launch, begin_phase, mark_done, end_phase, stamp, end_run}
use runboard_lcp.Soak.Prompts.{
  LoadPhase, Groups, LoadRequest, build_shapes, pool_of, built, shape_at, next_request, prompts_of,
  prompts_in, texts, or_blank,
}
use runboard_lcp.Soak.Prompts.Found.{next_request-finds}
use runboard_lcp.Soak.State.{Served, chat_short, code_gen, Soak, push, append_capped, series_at}
use runboard_lcp.Soak.Telemetry.{
  live_window, Figures, Gauges, live_rates, sample, live_of, in_window, stream_rates, window_tokens,
  note_round, push_reading, push_live,
}
use runboard_lcp.Soak.Worker.{Posted, answered, failed, turn}
use runboard_lcp.Tests.Metrics.{naturals}

abbrev figures : Figures naturals
figures = record {
  round2 = λ n. n;
  round3 = λ n. n;
  mean = λ ns. length ns;
  median = λ ns. length ns;
}

abbrev smoke : LoadPhase naturals
smoke = record { name = "smoke"; c = 2; minutes = 1 }

abbrev good : Posted naturals
good = answered 7 120 4 none (some 30)

abbrev late : Posted naturals
late = failed "URLError" 9

abbrev reading : Gauges naturals
reading = record { power = 61; temp = 55; util = 96; mem_available = some 40 }

abbrev begun_soak : Soak naturals
begun_soak = begin_phase naturals figures 0 smoke (launch naturals figures (smoke ∷ []))

abbrev loaded_soak : Soak naturals
loaded_soak = turn naturals code_gen 106 late (turn naturals chat_short 104 good begun_soak)

abbrev loaded_log : Log naturals figures
loaded_log = log_post naturals figures code_gen 106 late (
    log_post naturals figures chat_short 104 good
      (log_begin naturals figures (no_log naturals figures)))

abbrev soak : Soak naturals
soak = stamp naturals figures 160 (
    end_phase naturals figures 0 smoke 60 []
      (mark_done naturals figures 0 (sample naturals figures 110 reading loaded_soak)))

abbrev soak_log : Log naturals figures
soak_log =
    log_stamp naturals figures
      (log_round naturals figures (live_rates naturals figures 110 loaded_soak.recent) loaded_log)

run : SoakRun naturals figures (smoke ∷ []) (before 1) soak_log soak
run =
    stamped
      (ended
        (finished (
          sampled
            (posted (posted (begun launched smoke refl) chat_short 104 good) code_gen 106 late) 110
            reading))
        60 [])
      160

run_loaded : SoakRun naturals figures (smoke ∷ []) (within 0 smoke) loaded_log loaded_soak
run_loaded = posted (posted (begun launched smoke refl) chat_short 104 good) code_gen 106 late

abbrev digits : Digits naturals
digits = record { round_to = λ places n. n }

abbrev context : RowContext naturals
context = record {
  phase = "smoke";
  concurrency = 2;
  shape = chat_short;
  max_tokens = 256;
  prompt_tokens = 7;
  finish_reason = none;
  e2e_tok_s = some 30;
}

abbrev reply : Served naturals
reply = record { at = 104; tokens = 120; elapsed = 4 }

answered_lately : in_window naturals 110 (live_window naturals) loaded_soak.recent ≢ []
unfolding in_window turn begin_phase launch append_capped
answered_lately = cc

is_logged :
    AllLogged naturals digits
      (obj (logged_row naturals context reply) ∷ [])
      (rows naturals figures (all_answers naturals figures loaded_log))
unfolding rows
is_logged = ((context, refl), tt)

sample-rolling_aggregate_example :
    rolling_aggregate naturals digits 110 (obj (logged_row naturals context reply) ∷ [])
    ≡ ok (sample naturals figures 110 reading loaded_soak).state.live_agg_tps
sample-rolling_aggregate_example =
    sample-rolling_aggregate naturals digits figures (λ x. refl) (smoke ∷ []) 110 reading
      (obj (logged_row naturals context reply) ∷ []) run_loaded (omega arith) is_logged
      answered_lately

SoakRun-Ledger_example : LedgerOf naturals figures soak_log soak
SoakRun-Ledger_example = SoakRun-Ledger naturals figures (smoke ∷ []) run

SoakRun-Lengths_example :
    Lengths naturals figures soak_log.rounds soak_log.whole 1 soak.state.series
SoakRun-Lengths_example = SoakRun-Lengths naturals figures (smoke ∷ []) run

end_run-Measured_example :
    (map (λ r. r.phase) (end_run naturals figures soak).1.phases
      ≡ map (λ (p : LoadPhase naturals). p.name) (smoke ∷ []))
    × (sum_requests naturals (end_run naturals figures soak).1.phases
        ≡ (end_run naturals figures soak).1.totals.requests)
    × ((end_run naturals figures soak).0 ≡ 0
        ↔ AllMeasured naturals (end_run naturals figures soak).1.phases)
    × ((end_run naturals figures soak).2.published
        ≡ some (record soak.state { phase = some "DONE" }))
end_run-Measured_example = end_run-Measured naturals figures (smoke ∷ []) run

abbrev kit : Groups naturals
kit = ("gsm8k", field "prompt" (str "2 + 2?") end ∷ field "prompt" (str "3 * 3?") end ∷ []) ∷ []

shapes_built :
    build_shapes naturals kit
    ≡ ok (pool_of naturals (built naturals kit ("2 + 2?" ∷ "3 * 3?" ∷ []) ("" ∷ [])))
unfolding build_shapes prompts_of prompts_in find_key truthy is_falsy lookup texts or_blank
shapes_built = refl

next_request-finds_example :
    let shapes = pool_of naturals (built naturals kit ("2 + 2?" ∷ "3 * 3?" ∷ []) ("" ∷ [])) in
    (r : LoadRequest naturals) × (next_request naturals shapes 10 ≡ some r)
    × (r.shape ≡ shape_at naturals 0)
    × (r.max_tokens ≡ (shapes r.shape).max_tokens)
    × (get_elem? (shapes r.shape).prompts (10 % length (shapes r.shape).prompts) ≡ some r.prompt)
next_request-finds_example = next_request-finds naturals kit _ 10 shapes_built

-- The times have one item more than the power.
times_ahead : (length soak.state.series.ts ≡ 2) × (length soak.state.series.gpu_power ≡ 1)
unfolding stamp mark_done end_phase sample turn begin_phase launch push append_capped series_at
    live_rates live_of in_window stream_rates window_tokens note_round push_reading push_live
times_ahead = (refl, refl)
