-- ===== src/Dispatcher/Main/Stuck.antt =====
-- The ticks on a job file that is JSON but no object.
use runboard_lcp.Base.{String, ◌≡◌, ◌≢◌, refl, false, Option, some}
use runboard_lcp.Base.Try.{raised, type_error}
use runboard_lcp.Core.Floats.{Floats}
use runboard_lcp.Dispatcher.Doc.{default_doc}
use runboard_lcp.Dispatcher.Main.{start, main}
use runboard_lcp.Dispatcher.Queue.{oldest_job, read_job}
use runboard_lcp.Dispatcher.Session.{Session}
use runboard_lcp.Dispatcher.Status.{new_status}
use runboard_lcp.Dispatcher.Writes.{Writable}
use runboard_lcp.Host.{Host}
use runboard_lcp.Json.{Json, obj, Fields}

-- What a crash leaves as it was: all that could tell of the job.
pub record Untouched {F : Type 0} {H : Host F} (s t : Session H) : Type 0 where
  pub queue_same : t.queue ≡ s.queue
  pub done_same : t.done ≡ s.done
  pub history_same : t.history ≡ s.history
  pub nothing_run : t.calls ≡ s.calls
  pub no_error : t.doc.error ≡ Option.none

module _ (fl : Floats) (H : Host fl.F) (w : Writable H) where
  open fl use {F}

  start-crashes :
      (name : String) (v : Json F) (s : Session H)
      → ((d : Fields F) → v ≢ obj d)
      → ((start fl H name (some v) s).0 ≡ raised type_error)
        × Untouched s (start fl H name (some v) s).1
  unfolding start new_status default_doc
  start-crashes name (obj d) s other = absurd (other d refl)
  start-crashes name v s other = rw (w s.host) (
    refl,
    record {
      queue_same = refl;
      done_same = refl;
      history_same = refl;
      nothing_run = refl;
      no_error = refl;
    },
  )

  -- Where the file to run next parses to a value that is no object, and files can be written, the tick
  -- raises TypeError and leaves the file where it is, with no entry in the history, no command run and
  -- no error in the Status object.
  pub main-crashes :
      (name : String) (v : Json F) (s : Session H)
      → oldest_job s.queue ≡ some name
      → read_job name s.queue ≡ some v
      → ((d : Fields F) → v ≢ obj d)
      → ((main fl H false s).0 ≡ raised type_error) × Untouched s (main fl H false s).1
  unfolding main
  main-crashes name v s oldest read other = rw (oldest, read) (start-crashes name v s other)
