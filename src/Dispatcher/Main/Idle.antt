-- ===== src/Dispatcher/Main/Idle.antt =====
-- The ticks that have no job to run.
use runboard_lcp.Base.{false, last_n, none, some, ◌≡◌, refl}
use runboard_lcp.Base.Try.{ok}
use runboard_lcp.Core.Floats.{Floats}
use runboard_lcp.Dispatcher.Doc.{Doc}
use runboard_lcp.Dispatcher.Main.{idle, main}
use runboard_lcp.Dispatcher.Queue.{oldest_job}
use runboard_lcp.Dispatcher.Session.{Session}
use runboard_lcp.Dispatcher.Status.{log_keep, document, resume, set}
use runboard_lcp.Dispatcher.Writes.{Writable}
use runboard_lcp.Host.{Host}

-- What an idle tick leaves in status.json of the document that it found there.
pub record Resumed {F : Type 0} (before after : Doc F) : Type 0 where
  pub says_idle : after.state ≡ "idle"
  pub no_job : after.job ≡ none
  pub same_log : after.log_tail ≡ last_n log_keep before.log_tail
  pub same_restore : after.restored_to ≡ before.restored_to
  pub same_drift : after.off_baseline ≡ before.off_baseline
  pub same_result : after.result ≡ before.result

-- Where the queue holds no job and the files can be written, a tick exits with 0, runs no command,
-- moves no file, and writes a status.json that says idle and that keeps the result, the last 60
-- lines of the log and the two records of the last restore.
pub main-Resumed :
    (fl : Floats) (H : Host fl.F)
    → Writable H
    → (s : Session H) → oldest_job s.queue ≡ none
    → let t = (main fl H false s).1 in
      ((main fl H false s).0 ≡ ok 0)
      × (t.status ≡ some t.doc)
      × Resumed (document H s.status) t.doc
      × (t.calls ≡ s.calls)
      × (t.queue ≡ s.queue)
      × (t.done ≡ s.done)
      × (t.history ≡ s.history)
unfolding main idle resume set
main-Resumed fl H w s e = rw e (
    rw (w s.host) (
      refl,
      refl,
      record {
        says_idle = refl;
        no_job = refl;
        same_log = refl;
        same_restore = refl;
        same_drift = refl;
        same_result = refl;
      },
      refl,
      refl,
      refl,
      refl,
    ))
