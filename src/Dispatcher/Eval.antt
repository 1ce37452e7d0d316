-- ===== src/Dispatcher/Eval.antt =====
-- do_eval of dispatcher.py, with log_tail, _rows_written and _publish_run.
pub mod Limit
use runboard_lcp.Base.{
  ℕ, zero, suc, ◌+◌, ◌-◌, ◌*◌, String, ◌<>◌, Bool, true, false, not, Option, none, some, List, [],
  ◌∷◌, last_n, ltb, ◌==◌, ◌=ℕ=◌, split_lines, is_row_mark, show_nat, if◌then◌else◌,
}
use runboard_lcp.Base.Act.{◌>>=◌, ◌>>◌, match_option, pure, raise, gets}
use runboard_lcp.Base.Assoc.{find_key}
use runboard_lcp.Base.Int.{ℤ, pos}
use runboard_lcp.Base.Try.{Error, value_error, key_error, runtime_error}
use runboard_lcp.Core.Config.{Preset}
use runboard_lcp.Core.Jobs.{get_or, or_else, preset_named, default_workers_of, workers_of}
use runboard_lcp.Dispatcher.Doc.{Summary, no_summary, unreadable, summary, EvalResult}
use runboard_lcp.Dispatcher.Session.{Exec, on_host, touch_file, modify}
use runboard_lcp.Dispatcher.Status.{set, log}
use runboard_lcp.Dispatcher.Switch.{name_of, model_or_fallback}
use runboard_lcp.Host.{Host}
use runboard_lcp.Json.{int, str, Fields, lookup}
use runboard_lcp.Registry.Live.{live_engine}

-- JOB_TIMEOUT and DEFAULT_TIMEOUT, in seconds
unfoldable pub job_timeout : String → ℕ
unfolding find_key
job_timeout preset =
    or_else
      (find_key preset
        (("smoke-20", 1800) ∷ ("quick-60", 5400) ∷ ("kit-140", 14400) ∷ ("kit-180", 28800) ∷ []))
      14400

abbrev base_url : String
base_url = "http://127.0.0.1:18300"

-- The command lines of the two runners.
unfoldable pub lite_command : Preset → String → String → List String
lite_command p model run_id =
    "python3"
    ∷ "/root/q200_lite.py"
    ∷ "--base-url"
    ∷ base_url
    ∷ "--model"
    ∷ model
    ∷ "--run-id"
    ∷ run_id
    ∷ "--out-dir"
    ∷ "/root/exl3-bench/runs"
    ∷ "--limit-per-family"
    ∷ show_nat (or_else p.limit_per_family 0)
    ∷ "--max-tokens"
    ∷ show_nat p.max_tokens
    ∷ []

unfoldable pub frozen_command : Preset → String → String → ℕ → List String
frozen_command p model run_id workers =
    "python3"
    ∷ "/root/exl3-engine/r0b0bench/subsets/q200v2/scripts/run_quality_set.py"
    ∷ "--base-url"
    ∷ base_url
    ∷ "--run-id"
    ∷ run_id
    ∷ "--set"
    ∷ "/root/exl3-engine/r0b0bench/subsets/q200v2/artifacts/quality-text-180-v2.jsonl"
    ∷ "--model"
    ∷ model
    ∷ "--max-tokens"
    ∷ show_nat p.max_tokens
    ∷ "--timeout"
    ∷ "1800"
    ∷ "--workers"
    ∷ show_nat workers
    ∷ "--human-eval-timeout"
    ∷ "12"
    ∷ "--image-id"
    ∷ "sha256:58a0bd6b97f7001475fbe7ec8052bf2a7b0f4b7fb507097e5594c5d5b4d28644"
    ∷ "--profile-id"
    ∷ "console-dispatch"
    ∷ "--candidate-id"
    ∷ run_id
    ∷ "--admission-config"
    ∷ "/root/exl3-bench/admission.json"
    ∷ "--chat-template-kwargs"
    ∷ "{\"enable_thinking\": true, \"reasoning_effort\": \"low\", \"thinking\": true}"
    ∷ []

unfoldable pub command : Preset → String → String → ℕ → List String
unfolding lite_command frozen_command
command p model run_id workers =
    if p.runner == "lite"
    then lite_command p model run_id
    else frozen_command p model run_id workers

unfoldable pub count_marks : List String → ℕ
count_marks [] = 0
count_marks (l ∷ ls) = let rest = count_marks ls in if is_row_mark l then suc rest else rest

-- `text[:n]`
abbrev pub take_chars : ℕ → String → String
take_chars zero s = String.[]
take_chars (suc n) String.[] = String.[]
take_chars (suc n) (String.◌∷◌ c s) = String.◌∷◌ c (take_chars n s)

-- `rows[-1]`
abbrev pub or_last : String → List String → String
or_last a [] = a
or_last a (b ∷ bs) = or_last b bs

-- Whether the last line of the log is another text.
abbrev pub is_new : List String → String → Bool
is_new [] text = true
is_new (l ∷ []) text = not (l == text)
is_new (l ∷ m ∷ ls) text = is_new (m ∷ ls) text

module _ {F : Type 0} (H : Host F) where
  abbrev pub tail_of : ℕ → Option String → List String
  tail_of n none = []
  tail_of n (some text) = last_n n (split_lines text)

  -- log_tail
  unfoldable pub log_tail : String → ℕ → Exec H (List String)
  log_tail path n = do text ← on_host H (H.read_log path); pure (tail_of n text)

  -- _rows_written
  unfoldable pub rows_written : String → Exec H ℕ
  rows_written run_id = do n ← on_host H (H.count_rows run_id); pure (or_else n 0)

  unfoldable pub publish_file : String → String → String → Exec H (Unit {0})
  publish_file run_id src dst = do
    there ← on_host H (H.exists src)
    if not there then pure tt else (do
      touch_file H
      modify H (λ s. record s { published = (run_id <> "/" <> dst) ∷ s.published })
      log H ("published " <> dst))

  -- _publish_run
  unfoldable pub publish_run : String → Exec H (Unit {0})
  unfolding publish_file
  publish_run run_id = do
    publish_file run_id (run_id <> ".rows.jsonl") "rows.jsonl"
    publish_file run_id (run_id <> ".summary.json") "summary.json"

  -- The last row of the log file, unless it is the line that was stored last.
  unfoldable pub log_row : List String → Exec H (Unit {0})
  log_row [] = pure tt
  log_row (row ∷ rows) = do
    let text = "  " <> take_chars 160 (or_last row rows)
    logs ← gets (λ s. s.logs)
    if is_new logs text then log H text else pure tt

  -- The work of one round of the loop that waits for the runner.
  unfoldable pub report_progress : String → String → Exec H (Unit {0})
  unfolding count_marks
  report_progress path run_id = do
    on_host H (H.sleep 10)
    rows ← log_tail path 3
    written ← rows_written run_id
    marked ← log_tail path 400
    set H (λ doc. record doc {
      phase = some "eval";
      rows_seen = some (if written =ℕ= 0 then count_marks marked else written);
    })
    log_row rows

  -- What stands behind the time limit: the exit code is `none` where the process outlives SIGTERM.
  unfoldable pub stop_runner : Exec H (Option ℤ × Bool)
  stop_runner = do
    on_host H H.terminate
    on_host H (H.sleep 10)
    rc ← on_host H H.poll
    match_option rc (do on_host H H.kill; pure (none, true)) (λ r. pure (some r, true))

  -- `while proc.poll() is None`: the exit code and whether the time limit struck. `none` is for fuel
  -- that ran out.
  unfoldable pub wait_runner : ℕ → String → String → ℕ → ℕ → Exec H (Option (Option ℤ × Bool))
  wait_runner zero path run_id t0 timeout = pure none
  wait_runner (suc fuel) path run_id t0 timeout = do
    rc ← on_host H H.poll
    match_option rc
        (do
          now ← on_host H H.time
          if ltb (timeout * 1000) (now - t0)
              then (do end ← stop_runner; pure (some end))
              else (do _ ← report_progress path run_id; wait_runner fuel path run_id t0 timeout))
        (λ r. pure (some (some r, false)))

  -- Reading the runner's summary.json.
  unfoldable pub read_summary : String → Exec H (Summary F)
  read_summary run_id = do
    let path = "/root/exl3-bench/runs/" <> run_id <> "/summary.json"
    there ← on_host H (H.exists path)
    if not there then (do log H "no summary.json"; pure no_summary) else (do
      doc ← on_host H (H.read_json path)
      match_option doc (pure unreadable) (λ d. do log H "summary"; pure (summary d)))

  -- `subprocess.Popen(cmd)`, recorded among the calls.
  unfoldable pub start_process : List String → Exec H (Unit {0})
  start_process cmd = do
    refused ← on_host H (H.popen cmd)
    modify H (λ s. record s { calls = cmd ∷ s.calls })
    match_option refused (pure tt) raise

  abbrev pub some_or_raise : {A : Type 0} → Error → Option A → Exec H A
  some_or_raise e o = match_option o (raise e) pure

  -- The run itself: the exit code and whether the time limit struck.
  unfoldable pub run_preset : Preset → String → String → String → ℕ → Exec H (Option ℤ × Bool)
  unfolding command start_process
  run_preset p name run_id model workers = do
    let path = run_id <> ".log"
    let timeout = job_timeout name
    set H (λ doc. record doc { phase = some "eval" })
    log H ("running preset " <> name <> " as " <> run_id <> " on " <> model)
    log H "cmd"
    t0 ← on_host H H.time
    touch_file H
    start_process (command p model run_id workers)
    end ← wait_runner (timeout + 2) path run_id t0 timeout
    some_or_raise (runtime_error "out of fuel") end

  unfoldable pub do_eval : Fields F → String → Exec H (EvalResult F)
  unfolding run_preset read_summary
  do_eval job run_id = do
    p ← some_or_raise (key_error "preset") (preset_named (lookup "preset" job))
    live ← on_host H (live_engine H)
    let model = model_or_fallback live
    workers ←
        some_or_raise value_error
          (workers_of (get_or "workers" (int (pos (default_workers_of p.runner))) job))
    let name = name_of (get_or "preset" (str "") job)
    end ← run_preset p name run_id model workers
    log H "preset finished"
    publish_run run_id
    found ← read_summary run_id
    pure (record {
      run_id = run_id;
      preset = name;
      rc = end.0;
      engine = name_of (get_or "engine" (str "current") job);
      workers = workers;
      killed_by_timeout = end.1;
      summary = found;
    })
