-- ===== src/Dispatcher/Main/Accounts.antt =====
-- Every job that a tick takes is accounted for: it ends in the history and the archive, or it is
-- back in the queue.
use runboard_lcp.Base.{
  ℕ, String, false, Option, none, some, List, ◌≡◌, refl, inl, inr, ap, Bool-cases, arith,
}
use runboard_lcp.Base.Act.{◌>>◌, pure}
use runboard_lcp.Base.Act.Keeps.{Keeps}
use runboard_lcp.Base.Act.Succeeds.{
  Succeeds, Ends, Ends-bind, Ends-keep, Ends-pure, Ends-weaken, succeeds_rules, Succeeds-finally,
}
use runboard_lcp.Base.Int.{ℤ}
use runboard_lcp.Base.Try.{Error, Try, ok, raised}
use runboard_lcp.Core.Floats.{Floats}
use runboard_lcp.Dispatcher.Doc.{Problem, exception, runner_exited, Result, HistoryEntry}
use runboard_lcp.Dispatcher.Finish.{finish}
use runboard_lcp.Dispatcher.Finish.Recorded.{Recorded, finish-Ends, log-Recorded}
use runboard_lcp.Dispatcher.Frame.{Frame, Frame-Steady}
use runboard_lcp.Dispatcher.Main.{
  exit_code_of, runner_failed, report_error, perform, guarded, work, conclude, run_job,
}
use runboard_lcp.Dispatcher.Restore.{restore}
use runboard_lcp.Core.Jobs.{is_text}
use runboard_lcp.Dispatcher.Session.{Folder, Session}
use runboard_lcp.Dispatcher.Status.{log}
use runboard_lcp.Dispatcher.Steady.Work.{work-Steady}
use runboard_lcp.Dispatcher.Switch.{is_zero}
use runboard_lcp.Dispatcher.Writes.{Writable, writes_rules, log-Succeeds, restore-Succeeds}
use runboard_lcp.Host.{Host}
use runboard_lcp.Json.{Fields, lookup}

module _ (fl : Floats) where
  open fl use {F}

  module _ (H : Host F) where
    -- How a job that was run ends, and with which exit code of the tick: a crash, a runner that
    -- exited with another code than 0, or a job that is done.
    pub data Ended (name : String) (queue done : Folder F)
        (history : Option (List (HistoryEntry F))) (job : Fields F) : ℕ → Session H → Type 0 where
      crashed :
          {code : ℕ} {t : Session H} (e : Error)
          → code ≡ 3
          → Recorded H name queue done history job "failed" none (some (exception e)) t
          → Ended name queue done history job code t
      run_failed :
          {code : ℕ} {t : Session H} (r : Result F) (rc : ℤ)
          → code ≡ 0
          → exit_code_of fl H r ≡ some rc
          → is_zero rc ≡ false
          → Recorded H name queue done history job "failed" (some r) (some (runner_exited rc)) t
          → Ended name queue done history job code t
      is_done :
          {code : ℕ} {t : Session H} (r : Result F)
          → code ≡ 0
          → runner_failed fl H (exit_code_of fl H r) ≡ none
          → Recorded H name queue done history job "done" (some r) none t
          → Ended name queue done history job code t

    failed_code :
        (o : Option ℤ) (rc : ℤ)
        → runner_failed fl H o ≡ some rc
        → (o ≡ some rc) × (is_zero rc ≡ false)
    failed_code none rc p = cc
    failed_code (some code) rc p = elim (Bool-cases (is_zero code)) [
      | inl z ↦ absurd (ground (arith, z))
      | inr nz ↦ let e : code ≡ rc = ground (arith, nz) in (ap some e, rw e at nz)
    ]

    module _ (w : Writable H) (name : String) (queue done : Folder F)
        (history : Option (List (HistoryEntry F))) (job : Fields F) where
      pub finish_and_log :
          (state line : String) (result : Option (Result F)) (error : Option Problem) (code : ℕ)
          → Ends
              (Frame H queue done history)
              (do finish H name job state result error; log H line; pure code)
              (λ c t. (c ≡ code) × Recorded H name queue done history job state result error t)
      finish_and_log state line result error code =
          Ends-bind (finish H name job state result error) (λ _. log H line >> pure code)
            (finish-Ends H w name queue done history job state result error)
            λ _.
              Ends-bind (log H line) (λ _. pure code)
                (Ends-keep (log H line)
                  (log-Recorded H name queue done history job state result error line)
                  (log-Succeeds H w line))
                (λ _. Ends-pure code (λ s r. (refl, r)))

      conclude-Ends :
          (end : Try (Result F))
          → Ends
              (Frame H queue done history)
              (conclude fl H name job end)
              (Ended name queue done history job)
      unfolding conclude
      conclude-Ends (raised e) =
          Ends-weaken _ (finish_and_log "failed" "job FAILED" none (some (exception e)) 3)
            (λ c t (a, r). crashed e a r)
      conclude-Ends (ok r) = by_code (runner_failed fl H (exit_code_of fl H r)) refl
        where
          by_code :
              (o : Option ℤ)
              → runner_failed fl H (exit_code_of fl H r) ≡ o
              → Ends
                  (Frame H queue done history)
                  (conclude fl H name job (ok r))
                  (Ended name queue done history job)
          by_code none p = rw p (
              Ends-weaken _ (finish_and_log "done" "job done" (some r) none 0)
                (λ c t (a, x). is_done r a p x))
          by_code (some rc) p =
              let (code, nonzero) = failed_code (exit_code_of fl H r) rc p in
              rw p (
                Ends-weaken _
                  (finish_and_log "failed" "job FAILED" (some r) (some (runner_exited rc)) 0)
                  (λ c t (a, x). run_failed r rc a code nonzero x))

      report_error-Succeeds : (end : Try (Result F)) → Succeeds (report_error fl H end)
      unfolding report_error
      report_error-Succeeds (ok r) = search succeeds_rules
      report_error-Succeeds (raised e) = log-Succeeds H w "ERROR"

      -- The exception handler has logged, so that nothing is raised again behind the `finally` block.
      guarded-Succeeds : (previous : String) → Succeeds (guarded fl H job previous)
      unfolding guarded
      guarded-Succeeds previous =
          Succeeds-finally (perform fl H (is_text (lookup "action" job) "serve") job)
            (report_error fl H) (restore H (is_text (lookup "action" job) "serve") previous)
            report_error-Succeeds (restore-Succeeds H w _ previous)

      work-Succeeds : Succeeds (work fl H job)
      unfolding work
      work-Succeeds = search (writes_rules, guarded-Succeeds) depth 16

      work-Keeps : Keeps (Frame H queue done history) (work fl H job)
      work-Keeps = work-Steady fl H (Frame-Steady H queue done history) job

      pub run_job-Ends :
          Ends
            (Frame H queue done history)
            (run_job fl H name job)
            (Ended name queue done history job)
      unfolding run_job
      run_job-Ends =
          Ends-bind (work fl H job) (conclude fl H name job) (Ends-keep _ work-Keeps work-Succeeds)
            conclude-Ends
