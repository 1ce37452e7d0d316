-- ===== src/Dispatcher/Main/Bounds.antt =====
-- The bounds on what a tick leaves: the history and the tail of the log.
use Prim.Native.Nat.{◌≤◌}
use runboard_lcp.Base.{
  String, Bool, true, false, Option, none, some, List, [], ◌∷◌, ◌++◌, length, last_n, length-last_n,
  arith, Option-cases, ◌≡◌, refl, inl, inr,
}
use runboard_lcp.Base.Act.{pure}
use runboard_lcp.Base.Act.Keeps.{Keeps, keeps_rules, Keeps-bind, Keeps-if, Keeps-pure}
use runboard_lcp.Base.Try.{Try, ok, raised}
use runboard_lcp.Core.Disk.{Check, Refusal, accepted, refused, disk_free_gb}
use runboard_lcp.Core.Floats.{Floats}
use runboard_lcp.Core.Jobs.{validate_job}
use runboard_lcp.Dispatcher.Doc.{Doc, Problem, Result, HistoryEntry}
use runboard_lcp.Dispatcher.Finish.{
  history_keep, known_history, entry_of, last_doc, add_history, move_to_done, archive, finish,
}
use runboard_lcp.Dispatcher.Main.{
  conclude, run_job, write_back, defer, refuse, run_or_defer, pick, reject_file, work, idle, start,
  tick, main,
}
use runboard_lcp.Dispatcher.Queue.{oldest_job, read_job, remove_file, put_file}
use runboard_lcp.Dispatcher.Session.{Session, on_host, touch_file, modify, run}
use runboard_lcp.Dispatcher.Status.{log_keep, document, set, log, new_status, resume}
use runboard_lcp.Dispatcher.Steady.{
  Steady, steady_rules, touch_file-Steady, run-Steady, on_host-Steady, lift-Steady,
}
use runboard_lcp.Dispatcher.Steady.Work.{work-Steady}
use runboard_lcp.Dispatcher.Switch.{busy_in, busy_with_something_else, match_check, lift}
use runboard_lcp.Host.{Host}
use runboard_lcp.Json.{Json, obj, str, Fields, insert, without}

-- The tail of the log, in the object and on disk, is at most 60 lines, and the history at most 200 entries.
pub record IsBounded {F : Type 0} {H : Host F} (s : Session H) : Type 0 where
  pub tail_le : length s.doc.log_tail ≤ log_keep
  pub status_le : length (document H s.status).log_tail ≤ log_keep
  pub history_le : length (known_history H s.history) ≤ history_keep

module _ {F : Type 0} (H : Host F) where
  abbrev Bounded : Session H → Type 0
  Bounded = IsBounded

  tail-length : (lines : List String) → length (last_n log_keep lines) ≤ log_keep
  tail-length lines = omega (arith, length-last_n log_keep lines)

  set-IsBounded : (change : Doc F → Doc F) → Keeps Bounded (set H change)
  unfolding set
  set-IsBounded change = record {
    at = λ s b. elim (Option-cases (H.file_error s.host).0) [
      | inl e ↦ rw e (record {
        tail_le = tail-length s.logs;
        status_le = tail-length s.logs;
        history_le = b.history_le;
      })
      | inr (x, e) ↦ rw e (record {
        tail_le = tail-length s.logs;
        status_le = b.status_le;
        history_le = b.history_le;
      })
    ];
  }

  same_documents :
      (change : Session H → Session H)
      → ((s : Session H)
          → ((change s).doc ≡ s.doc)
            × ((change s).status ≡ s.status)
            × ((change s).history ≡ s.history))
      → Keeps Bounded (modify H change)
  same_documents change same = record {
    at = λ s b.
        let (d, t, h) = same s in
        record {
          tail_le = rw d b.tail_le;
          status_le = rw t b.status_le;
          history_le = rw h b.history_le;
        };
  }

  log-IsBounded : (line : String) → Keeps Bounded (log H line)
  unfolding log
  log-IsBounded line =
      Keeps-bind (modify H _) _ (same_documents _ (λ s. (ground arith, ground arith, ground arith)))
        λ _. set-IsBounded (λ doc. doc)

  Bounded-Steady : Steady H Bounded
  Bounded-Steady = record {
    on_box =
        λ s h b. record { tail_le = b.tail_le; status_le = b.status_le; history_le = b.history_le };
    on_call = λ s cmd b. record {
      tail_le = b.tail_le;
      status_le = b.status_le;
      history_le = b.history_le;
    };
    on_publish = λ s name b. record {
      tail_le = b.tail_le;
      status_le = b.status_le;
      history_le = b.history_le;
    };
    on_set = set-IsBounded;
    on_log = log-IsBounded;
  }

  add_history-IsBounded : (entry : HistoryEntry F) → Keeps Bounded (add_history H entry)
  unfolding add_history
  add_history-IsBounded entry =
      Keeps-bind (touch_file H) _ (touch_file-Steady H Bounded-Steady) λ _. record {
        at = λ s b. record {
          tail_le = b.tail_le;
          status_le = b.status_le;
          history_le =
              omega (arith, length-last_n history_keep (known_history H s.history ++ entry ∷ []));
        };
      }

  move_to_done-IsBounded : (name : String) → Keeps Bounded (move_to_done H name)
  unfolding move_to_done
  move_to_done-IsBounded name =
      Keeps-bind (touch_file H) _ (touch_file-Steady H Bounded-Steady)
        λ _. same_documents _ (λ s. (refl, refl, refl))

  archive-IsBounded : (name : String) → Keeps Bounded (archive H name)
  unfolding archive
  archive-IsBounded name = search (keeps_rules, move_to_done-IsBounded, log-IsBounded)

  finish-IsBounded :
      (name : String) (job : Fields F) (state : String) (result : Option (Result F))
      (error : Option Problem)
      → Keeps Bounded (finish H name job state result error)
  unfolding finish
  finish-IsBounded name job state result error =
      Keeps-bind (λ s. (ok (entry_of H job state result error s.doc), s)) _
        (record { at = λ s b. b })
        λ entry. Keeps-bind (add_history H entry) _ (add_history-IsBounded entry) λ _.
          Keeps-bind (set H (last_doc H job state result error)) (λ _. archive H name)
            (set-IsBounded _) (λ _. archive-IsBounded name)

  resume-IsBounded : Keeps Bounded (resume H)
  unfolding resume
  resume-IsBounded = record {
    at =
        λ s b. record { tail_le = b.status_le; status_le = b.status_le; history_le = b.history_le };
  }

  new_status-IsBounded : Keeps Bounded (new_status H)
  unfolding new_status
  new_status-IsBounded = record {
    at = λ s b. elim (Option-cases (H.file_error s.host).0) [
      | inl e ↦ rw e (record {
        tail_le = tail-length [];
        status_le = tail-length [];
        history_le = b.history_le;
      })
      | inr (x, e) ↦
          rw e (record {
            tail_le = tail-length [];
            status_le = b.status_le;
            history_le = b.history_le;
          })
    ];
  }

  busy-IsBounded : (users : List (String × String)) → Keeps Bounded (busy_in H users)
  unfolding busy_in
  busy-IsBounded [] = search steady_rules
  busy-IsBounded ((p, label) ∷ users) =
      Keeps-bind (run H ("pgrep" ∷ "-f" ∷ p ∷ []) 10) _ (run-Steady H Bounded-Steady _ 10) λ end.
        Keeps-if _ (busy_in H users) (pure (some label)) (busy-IsBounded users) (Keeps-pure _)

module _ (fl : Floats) (H : Host fl.F) where
  open fl use {F}

  write_back-IsBounded :
      (name : String) (job : Fields F) → Keeps (Bounded H) (write_back fl H name job)
  unfolding write_back
  write_back-IsBounded name job =
      Keeps-bind (touch_file H) _ (touch_file-Steady H (Bounded-Steady H)) λ _.
        Keeps-bind (modify H (λ s. record s { queue = remove_file name s.queue })) _
          (same_documents H _ (λ s. (refl, refl, refl)))
          λ _. Keeps-bind (touch_file H) _ (touch_file-Steady H (Bounded-Steady H)) λ _.
            same_documents H
              (λ s. record s { queue = put_file name (some (obj (without "_path" job))) s.queue })
              (λ s. (refl, refl, refl))

  defer-IsBounded :
      (name : String) (job : Fields F) (label : String)
      → Keeps (Bounded H) (defer fl H name job label)
  unfolding defer
  defer-IsBounded name job label =
      search (keeps_rules, set-IsBounded, log-IsBounded, write_back-IsBounded) depth 12

  refuse-IsBounded :
      (name : String) (job : Fields F) (why : Refusal)
      → Keeps (Bounded H) (refuse fl H name job why)
  unfolding refuse
  refuse-IsBounded name job why = search (keeps_rules, log-IsBounded, finish-IsBounded) depth 12

  conclude-IsBounded :
      (name : String) (job : Fields F) (end : Try (Result F))
      → Keeps (Bounded H) (conclude fl H name job end)
  unfolding conclude
  conclude-IsBounded name job (ok r) =
      search (keeps_rules, log-IsBounded, finish-IsBounded) depth 12
  conclude-IsBounded name job (raised e) =
      search (keeps_rules, log-IsBounded, finish-IsBounded) depth 12

  run_job-IsBounded : (name : String) (job : Fields F) → Keeps (Bounded H) (run_job fl H name job)
  unfolding run_job
  run_job-IsBounded name job =
      Keeps-bind (work fl H job) (conclude fl H name job) (work-Steady fl H (Bounded-Steady H) job)
        (conclude-IsBounded name job)

  run_or_defer-IsBounded :
      (name : String) (job : Fields F) → Keeps (Bounded H) (run_or_defer fl H name job)
  unfolding run_or_defer busy_with_something_else
  run_or_defer-IsBounded name job =
      search (keeps_rules, log-IsBounded, busy-IsBounded, run_job-IsBounded, defer-IsBounded) depth
        12

  by_check-IsBounded :
      (v : Check) (name : String) (job : Fields F)
      → Keeps (Bounded H) (match_check H v (refuse fl H name job) (run_or_defer fl H name job))
  by_check-IsBounded accepted name job = run_or_defer-IsBounded name job
  by_check-IsBounded (refused why) name job = refuse-IsBounded name job why

  pick-IsBounded : (name : String) (picked : Fields F) → Keeps (Bounded H) (pick fl H name picked)
  unfolding pick
  pick-IsBounded name picked =
      Keeps-bind (λ s. (ok s, s)) _ (record { at = λ s b. b })
        λ s. Keeps-bind (set H _) _ (set-IsBounded H _) λ _.
          Keeps-bind (log H _) _ (log-IsBounded H _) λ _.
            Keeps-bind (on_host H H.disk_usage) _ (on_host-Steady H (Bounded-Steady H) H.disk_usage)
              λ free.
                Keeps-bind
                  (lift H (
                    validate_job fl (disk_free_gb fl free)
                      (obj (insert "_path" (str name) picked))))
                  _ (lift-Steady H (Bounded-Steady H) _)
                  λ v. by_check-IsBounded v name (insert "_path" (str name) picked)

  idle-IsBounded : Keeps (Bounded H) (idle fl H)
  unfolding idle
  idle-IsBounded = search (keeps_rules, resume-IsBounded, set-IsBounded)

  reject_file-IsBounded : (name : String) → Keeps (Bounded H) (reject_file fl H name)
  unfolding reject_file
  reject_file-IsBounded name =
      search (keeps_rules, move_to_done-IsBounded, resume-IsBounded, set-IsBounded) depth 12

  start-IsBounded :
      (name : String) (job : Option (Json F)) → Keeps (Bounded H) (start fl H name job)
  unfolding start
  start-IsBounded name none = reject_file-IsBounded name
  start-IsBounded name (some (obj d)) = search (keeps_rules, new_status-IsBounded, pick-IsBounded)
  start-IsBounded name (some v) = search (keeps_rules, new_status-IsBounded)

  -- Every tick of the dispatcher, whether it returns or raises, keeps the tail of the log in the
  -- Status object and in status.json at 60 lines at most, and history.json at 200 entries at most.
  pub main-IsBounded : (locked : Bool) → Keeps (Bounded H) (main fl H locked)
  unfolding main
  main-IsBounded true = record { at = λ s b. b }
  main-IsBounded false = record { at = λ s b. by_job (oldest_job s.queue) s b }
    where
      by_job : (name : Option String) (s : Session H) → IsBounded s → IsBounded (tick fl H name s).1
      by_job none s b = idle-IsBounded.at s b
      by_job (some name) s b = (start-IsBounded name (read_job name s.queue)).at s b
