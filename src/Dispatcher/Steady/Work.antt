-- ===== src/Dispatcher/Steady/Work.antt =====
-- The same of do_eval, do_download and restore.
use runboard_lcp.Base.{ℕ, zero, suc, String, Bool, Option, some, List, [], ◌∷◌}
use runboard_lcp.Base.Act.Keeps.{Keeps, keeps_rules, Keeps-bind, Keeps-if}
use runboard_lcp.Core.Config.{Preset}
use runboard_lcp.Core.Floats.{Floats}
use runboard_lcp.Dispatcher.Doc.{Result}
use runboard_lcp.Dispatcher.Download.{
  find_hf, check_disk, report_download, wait_download, do_download,
}
use runboard_lcp.Dispatcher.Eval.{
  log_tail, rows_written, publish_file, publish_run, log_row, report_progress, stop_runner,
  wait_runner, read_summary, start_process, some_or_raise, run_preset, do_eval,
}
use runboard_lcp.Dispatcher.Steady.{
  Steady, on_host-Steady, touch_file-Steady, call-Steady, publish-Steady, steady_rules, lift-Steady,
  run_serve-Steady, probe-Steady, do_switch-Steady, text_field-Steady,
}
use runboard_lcp.Dispatcher.Main.{serve, switch_and_run, perform, report_error, guarded, work}
use runboard_lcp.Dispatcher.Restore.{
  record_drift, bring_back, restore_body, record_failure, restore,
}
use runboard_lcp.Dispatcher.Session.{Session, Exec, on_host}
use runboard_lcp.Base.Act.{pure}
use runboard_lcp.Base.Try.{Error, Try, ok, raised}
use runboard_lcp.Core.Disk.{Check, Refusal, accepted, refused}
use runboard_lcp.Dispatcher.Switch.{match_check}
use runboard_lcp.Host.{Host}
use runboard_lcp.Json.{Fields}

module _ {F : Type 0} (H : Host F) {P : Session H → Type 0} (c : Steady H P) where
  log_row-Steady : (rows : List String) → Keeps P (log_row H rows)
  unfolding log_row
  log_row-Steady [] = search keeps_rules
  log_row-Steady (row ∷ rows) = search steady_rules depth 12

  log_tail-Steady : (path : String) (n : ℕ) → Keeps P (log_tail H path n)
  unfolding log_tail
  log_tail-Steady path n = search steady_rules

  rows_written-Steady : (run_id : String) → Keeps P (rows_written H run_id)
  unfolding rows_written
  rows_written-Steady run_id = search steady_rules

  publish_file-Steady : (run_id src dst : String) → Keeps P (publish_file H run_id src dst)
  unfolding publish_file
  publish_file-Steady run_id src dst = search (steady_rules, publish-Steady H c) depth 20

  publish_run-Steady : (run_id : String) → Keeps P (publish_run H run_id)
  unfolding publish_run
  publish_run-Steady run_id = search (steady_rules, publish_file-Steady) depth 12

  report_progress-Steady : (path run_id : String) → Keeps P (report_progress H path run_id)
  unfolding report_progress
  report_progress-Steady path run_id =
      search (steady_rules, log_tail-Steady, rows_written-Steady, log_row-Steady) depth 20

  stop_runner-Steady : Keeps P (stop_runner H)
  unfolding stop_runner
  stop_runner-Steady = search steady_rules depth 12

  wait_runner-Steady :
      (fuel : ℕ) (path run_id : String) (t0 timeout : ℕ)
      → Keeps P (wait_runner H fuel path run_id t0 timeout)
  unfolding wait_runner
  wait_runner-Steady zero path run_id t0 timeout = search steady_rules
  wait_runner-Steady (suc fuel) path run_id t0 timeout =
      search (steady_rules, stop_runner-Steady, report_progress-Steady, wait_runner-Steady fuel)
        depth 12

  read_summary-Steady : (run_id : String) → Keeps P (read_summary H run_id)
  unfolding read_summary
  read_summary-Steady run_id = search steady_rules depth 12

  start_process-Steady : (cmd : List String) → Keeps P (start_process H cmd)
  unfolding start_process
  start_process-Steady cmd = search (steady_rules, call-Steady H c) depth 20

  some_or_raise-Steady : {A : Type 0} (e : Error) (o : Option A) → Keeps P (some_or_raise H e o)
  some_or_raise-Steady e o = search keeps_rules

  ruleset eval_rules = (
    steady_rules, publish_run-Steady, report_progress-Steady, stop_runner-Steady,
    wait_runner-Steady, read_summary-Steady, start_process-Steady, some_or_raise-Steady,
    log_tail-Steady,
  )

  run_preset-Steady :
      (p : Preset) (name run_id model : String) (workers : ℕ)
      → Keeps P (run_preset H p name run_id model workers)
  unfolding run_preset
  run_preset-Steady p name run_id model workers = search eval_rules depth 16

  pub do_eval-Steady : (job : Fields F) (run_id : String) → Keeps P (do_eval H job run_id)
  unfolding do_eval
  do_eval-Steady job run_id = search (eval_rules, run_preset-Steady) depth 16

module _ (fl : Floats) where
  open fl use {F}

  module _ (H : Host F) {P : Session H → Type 0} (c : Steady H P) where
    find_hf-Steady : (paths : List String) → Keeps P (find_hf fl H paths)
    unfolding find_hf
    find_hf-Steady [] = search keeps_rules
    find_hf-Steady (path ∷ paths) =
        Keeps-bind (on_host H (H.exists path)) _ (on_host-Steady H c (H.exists path)) (λ there.
          Keeps-if there (pure (some path)) (find_hf fl H paths) (search keeps_rules)
            (find_hf-Steady paths))

    match_check-Steady :
        {A : Type 0} (v : Check) (f : Refusal → Exec H A) (m : Exec H A)
        → ((r : Refusal) → Keeps P (f r))
        → Keeps P m
        → Keeps P (match_check H v f m)
    match_check-Steady accepted f m kf km = km
    match_check-Steady (refused why) f m kf km = kf why

    check_disk-Steady : (job : Fields F) → Keeps P (check_disk fl H job)
    unfolding check_disk
    check_disk-Steady job = search (steady_rules, lift-Steady, match_check-Steady) depth 12

    report_download-Steady : (repo : String) (ticks : ℕ) → Keeps P (report_download fl H repo ticks)
    unfolding report_download
    report_download-Steady repo ticks = search steady_rules depth 12

    wait_download-Steady :
        (fuel : ℕ) (repo : String) (t0 ticks : ℕ) → Keeps P (wait_download fl H fuel repo t0 ticks)
    unfolding wait_download
    wait_download-Steady zero repo t0 ticks = search keeps_rules
    wait_download-Steady (suc fuel) repo t0 ticks =
        search (steady_rules, report_download-Steady, wait_download-Steady fuel) depth 12

    pub do_download-Steady : (job : Fields F) → Keeps P (do_download fl H job)
    unfolding do_download
    do_download-Steady job =
        search
          (
            steady_rules, text_field-Steady, find_hf-Steady, check_disk-Steady,
            wait_download-Steady, some_or_raise-Steady, touch_file-Steady, start_process-Steady,
            log_tail-Steady,
          )
          depth 24

    serve-Steady : (job : Fields F) → Keeps P (serve fl H job)
    unfolding serve
    serve-Steady job = search (steady_rules, lift-Steady, run_serve-Steady, probe-Steady) depth 24

    switch_and_run-Steady : (job : Fields F) → Keeps P (switch_and_run fl H job)
    unfolding switch_and_run
    switch_and_run-Steady job =
        search
          (steady_rules, do_switch-Steady, text_field-Steady, do_eval-Steady, do_download-Steady)
          depth 12

    pub perform-Steady :
        (explicit_serve : Bool) (job : Fields F) → Keeps P (perform fl H explicit_serve job)
    unfolding perform
    perform-Steady explicit_serve job =
        Keeps-if explicit_serve _ _ (serve-Steady job) (switch_and_run-Steady job)

    record_drift-Steady : (cur : String) → Keeps P (record_drift H cur)
    unfolding record_drift
    record_drift-Steady cur = search steady_rules depth 12

    bring_back-Steady : (previous cur : String) → Keeps P (bring_back H previous cur)
    unfolding bring_back
    bring_back-Steady previous cur = search (steady_rules, run_serve-Steady) depth 16

    restore_body-Steady :
        (explicit_serve : Bool) (previous : String)
        → Keeps P (restore_body H explicit_serve previous)
    unfolding restore_body
    restore_body-Steady explicit_serve previous =
        search (steady_rules, record_drift-Steady, bring_back-Steady) depth 12

    record_failure-Steady : (previous : String) (e : Error) → Keeps P (record_failure H previous e)
    unfolding record_failure
    record_failure-Steady previous e = search steady_rules depth 12

    pub restore-Steady :
        (explicit_serve : Bool) (previous : String) → Keeps P (restore H explicit_serve previous)
    unfolding restore
    restore-Steady explicit_serve previous =
        search (keeps_rules, restore_body-Steady, record_failure-Steady) depth 12

    report_error-Steady : (r : Try (Result F)) → Keeps P (report_error fl H r)
    unfolding report_error
    report_error-Steady (ok r) = search keeps_rules
    report_error-Steady (raised e) = search steady_rules

    pub guarded-Steady : (job : Fields F) (previous : String) → Keeps P (guarded fl H job previous)
    unfolding guarded
    guarded-Steady job previous =
        search (keeps_rules, perform-Steady, report_error-Steady, restore-Steady) depth 16

    pub work-Steady : (job : Fields F) → Keeps P (work fl H job)
    unfolding work
    work-Steady job = search (steady_rules, guarded-Steady) depth 16
