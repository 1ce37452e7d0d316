-- ===== src/Dispatcher/Main.antt =====
-- `main` of dispatcher.py: one tick of the timer.
pub mod Accounts
pub mod Bounds
pub mod Drain
pub mod Idle
pub mod Posted
pub mod Stuck
pub mod Tick
use runboard_lcp.Base.{
  ℕ, String, ◌<>◌, Bool, true, false, not, Option, none, some, List, [], ◌∷◌, ◌==◌, if◌then◌else◌,
}
use runboard_lcp.Base.Act.{◌>>=◌, ◌>>◌, match_option, pure, raise, capture, reraise}
use runboard_lcp.Base.Int.{ℤ}
use runboard_lcp.Base.Try.{Error, Try, ok, raised, type_error, runtime_error}
use runboard_lcp.Core.Disk.{Check, Refusal, disk_free_gb}
use runboard_lcp.Core.Floats.{Floats}
use runboard_lcp.Core.Jobs.{get_or, is_text, validate_job, job_public_view}
use runboard_lcp.Dispatcher.Doc.{
  Doc, Problem, unreadable_job, exception, invalid, deferred, runner_exited, Result, served,
  evaluated, downloaded,
}
use runboard_lcp.Dispatcher.Download.{do_download}
use runboard_lcp.Dispatcher.Eval.{do_eval}
use runboard_lcp.Dispatcher.Finish.{finish, move_to_done}
use runboard_lcp.Dispatcher.Queue.{oldest_job, read_job, remove_file, put_file}
use runboard_lcp.Dispatcher.Restore.{restore}
use runboard_lcp.Dispatcher.Session.{Session, Exec, on_host, touch_file, modify, run}
use runboard_lcp.Dispatcher.Status.{set, log, log_all, queue_depth, new_status, resume}
use runboard_lcp.Dispatcher.Switch.{
  is_zero, engine_switch, name_of, busy_with_something_else, probe_generation, run_serve,
  tail_lines, text_field, match_check, lift, do_switch,
}
use runboard_lcp.Host.{Host}
use runboard_lcp.Json.{Json, obj, str, Fields, lookup, insert, without}
use runboard_lcp.Registry.Live.{live_engine}

module _ (fl : Floats) where
  open fl use {F}

  module _ (H : Host F) where
    -- The action "serve": an explicit switch, which is not undone.
    unfoldable pub serve : Fields F → Exec H (Result F)
    serve job = do
      let want = get_or "engine" (str "") job
      target ← lift H (engine_switch want)
      set H (λ doc. record doc { phase = some "serve" })
      log H ("explicit switch to " <> name_of want)
      end ← run_serve H target
      log_all H (tail_lines end.1)
      if is_zero end.0 then pure tt else raise (runtime_error "serve.sh failed")
      answered ← probe_generation H
      log H (if answered then "generation probe: OK" else "generation probe: FAIL")
      if answered
          then pure tt
          else raise (runtime_error ("switched to " <> name_of want <> " but it does not answer"))
      on_host H (live_engine H)
      pure (served (name_of want) target)

    -- An eval or a download: the switch if one is asked for, then the work.
    unfoldable pub switch_and_run : Fields F → Exec H (Result F)
    switch_and_run job = do
      do_switch H job
      if is_text (lookup "action" job) "eval"
          then (do
            job_id ← text_field H "job_id" job
            end ← do_eval H job (job_id <> "-" <> name_of (get_or "engine" (str "current") job))
            pure (evaluated end))
          else (do end ← do_download fl H job; pure (downloaded end.0 end.1))

    unfoldable pub perform : Bool → Fields F → Exec H (Result F)
    unfolding serve switch_and_run
    perform explicit_serve job = if explicit_serve then serve job else switch_and_run job

    -- `except Exception as exc`
    unfoldable pub report_error : Try (Result F) → Exec H (Unit {0})
    report_error (ok r) = pure tt
    report_error (raised e) = log H "ERROR"

    -- try, except and finally: what the work came to, once the baseline has been seen to.
    unfoldable pub guarded : Fields F → String → Exec H (Try (Result F))
    unfolding report_error
    guarded job previous = do
      let explicit_serve = is_text (lookup "action" job) "serve"
      end ← capture (perform explicit_serve job)
      logged ← capture (report_error end)
      restore H explicit_serve previous
      reraise logged
      pure end

    -- `result.get("rc")`
    unfoldable pub exit_code_of : Result F → Option ℤ
    exit_code_of (served e t) = none
    exit_code_of (evaluated r) = r.rc
    exit_code_of (downloaded r rc) = some rc

    -- `run_rc not in (None, 0)`, with the code
    abbrev pub runner_failed : Option ℤ → Option ℤ
    runner_failed none = none
    runner_failed (some rc) = if is_zero rc then none else some rc

    -- The end of the job, by what it came to; the number is the tick's exit code.
    unfoldable pub conclude : String → Fields F → Try (Result F) → Exec H ℕ
    unfolding exit_code_of
    conclude name job (raised e) = do
      finish H name job "failed" none (some (exception e))
      log H "job FAILED"
      pure 3
    conclude name job (ok r) =
        match_option (runner_failed (exit_code_of r))
          (do finish H name job "done" (some r) none; log H "job done"; pure 0)
          (λ rc. do
            finish H name job "failed" (some r) (some (runner_exited rc))
            log H "job FAILED"
            pure 0)

    -- From what is serving before the job to the refresh of the index behind it.
    unfoldable pub work : Fields F → Exec H (Try (Result F))
    unfolding guarded
    work job = do
      prev ← on_host H (live_engine H)
      set H (λ doc. record doc { previous_engine = some (prev.target, prev.engine_build) })
      log H ("before: serving=" <> prev.target)
      end ← guarded job prev.target
      run H ("systemctl" ∷ "start" ∷ "load-history.service" ∷ []) 180
      run H ("python3" ∷ "/root/load/registry.py" ∷ []) 180
      pure end

    unfoldable pub run_job : String → Fields F → Exec H ℕ
    unfolding work conclude
    run_job name job = do end ← work job; conclude name job end

    -- The file is taken away and written again; an exception in either is passed over.
    unfoldable pub write_back : String → Fields F → Exec H (Unit {0})
    write_back name job = do
      touch_file H
      modify H (λ s. record s { queue = remove_file name s.queue })
      touch_file H
      modify H (λ s. record s { queue = put_file name (some (obj (without "_path" job))) s.queue })

    unfoldable pub defer : String → Fields F → String → Exec H ℕ
    unfolding write_back
    defer name job label = do
      log H ("deferring: " <> label)
      set H (λ doc. record doc {
        state = "queued";
        phase = some "waiting";
        error = some (deferred label);
      })
      capture (write_back name job)
      pure 0

    unfoldable pub refuse : String → Fields F → Refusal → Exec H ℕ
    refuse name job why = do
      log H "validation failed"
      finish H name job "failed" none (some (invalid why))
      pure 2

    unfoldable pub run_or_defer : String → Fields F → Exec H ℕ
    unfolding run_job defer
    run_or_defer name job = do
      log H "validated: ok"
      busy ← busy_with_something_else H
      match_option busy (run_job name job) (defer name job)

    -- A job that parses to an object, from its validation on.
    unfoldable pub pick : String → Fields F → Exec H ℕ
    unfolding refuse run_or_defer
    pick name picked = do
      let job = insert "_path" (str name) picked
      s ← (λ s. (ok s, s))
      set H (λ doc. record doc {
        state = "running";
        job = some (job_public_view job);
        phase = some "validate";
        queue_depth = queue_depth H s;
      })
      log H "picked job"
      free ← on_host H H.disk_usage
      verdict ← lift H (validate_job fl (disk_free_gb fl free) (obj job))
      match_check H verdict (refuse name job) (run_or_defer name job)

    unfoldable pub idle : Exec H ℕ
    idle = do
      resume H
      set H (λ doc. record doc { state = "idle"; phase = none; job = none; queue_depth = 0 })
      pure 0

    unfoldable pub reject_file : String → Exec H ℕ
    reject_file name = do
      move_to_done H name
      resume H
      set H (λ doc. record doc { state = "failed"; error = some unreadable_job })
      pure 1

    -- A file that parses to no object makes `job["_path"] = …` raise.
    unfoldable pub start : String → Option (Json F) → Exec H ℕ
    unfolding pick reject_file
    start name none = reject_file name
    start name (some (obj d)) = do new_status H; pick name d
    start name (some v) = do new_status H; raise type_error

    tick : Option String → Exec H ℕ
    unfolding start idle
    tick none s = idle s
    tick (some name) s = start name (read_job name s.queue) s

    -- `locked` says that another dispatcher holds the lock. The result is the exit code.
    unfoldable pub main : Bool → Exec H ℕ
    unfolding tick
    main true s = (ok 0, s)
    main false s = tick (oldest_job s.queue) s
