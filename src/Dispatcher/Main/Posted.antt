-- ===== src/Dispatcher/Main/Posted.antt =====
-- From the request that queues a job to the tick that runs it.
use runboard_lcp.Base.{
  ℕ, String, ◌≡◌, ◌≢◌, ◌⊎◌, inl, inr, true, false, Option, none, some, ◌==◌, has_char, Bool-cases,
}
use runboard_lcp.Base.Try.{ok}
use runboard_lcp.Core.Disk.{accepted}
use runboard_lcp.Core.Floats.{Floats}
use runboard_lcp.Core.JobId.{Texts}
use runboard_lcp.Core.Jobs.{validate_job}
use runboard_lcp.Core.Jobs.Again.{validate_job_again}
use runboard_lcp.Core.Jobs.Valid.{validate_job-iff-IsValid}
use runboard_lcp.Core.Token.Closed.{Carries}
use runboard_lcp.Dispatcher.Main.{main}
use runboard_lcp.Dispatcher.Main.Accounts.{Ended}
use runboard_lcp.Dispatcher.Main.Drain.{Calm, Busy-absurd}
use runboard_lcp.Dispatcher.Clock.{Clock}
use runboard_lcp.Dispatcher.Main.Tick.{Accounted, invalid_job, put_back, ran, main-Accounted}
use runboard_lcp.Dispatcher.Queue.{oldest_job, read_job, remove_file, put_file}
use runboard_lcp.Dispatcher.Queue.Folders.{read_job-remove_file}
use runboard_lcp.Dispatcher.Session.{Session}
use runboard_lcp.Dispatcher.Writes.{Writable}
use runboard_lcp.Host.{Host}
use runboard_lcp.Json.{Json, Fields, obj, str, insert, lookup}
use runboard_lcp.Server.Desk.{Desk}
use runboard_lcp.Server.Post.{Request, prepare, file_name, write_job, do_post}
use runboard_lcp.Server.Post.Guard.{Outcome, untouched, written, do_post-Outcome}

module _ (fl : Floats) where
  open fl use {F}

  module _ (H : Host F) (w : Writable H) {Free : H.State → Type 0} (calm : Calm fl H Free) where
    -- A job that passed validation and is no download is run by the tick that picks it.
    picked-Ended :
        (free : F) (s : Session H) (name : String) (job : Fields F)
        → oldest_job s.queue ≡ some name
        → read_job name s.queue ≡ some (obj job)
        → lookup "action" job ≢ some (str "download")
        → validate_job fl free (obj job) ≡ ok accepted
        → Free s.host
        → (code : ℕ) × ((main fl H false s).0 ≡ ok code)
          × Ended fl H name s.queue s.done s.history
              (insert "_path" (str name) job)
              code
              (main fl H false s).1
    picked-Ended free s name job oldest read other valid port_free =
        let again : (now : F)
            → validate_job fl now (obj (insert "_path" (str name) job)) ≡ ok accepted =
          λ now. validate_job_again fl free now job name other valid in
        let (code, returned, account) =
          main-Accounted fl H w s name job oldest read (λ now. (accepted, again now)) in
        (code, returned, by_account code (main fl H false s).1 again port_free account)
      where
        by_account :
            (code : ℕ) (t : Session H)
            → ((now : F) → validate_job fl now (obj (insert "_path" (str name) job)) ≡ ok accepted)
            → Free s.host
            → Accounted fl H s.host name s.queue s.done s.history
                (insert "_path" (str name) job)
                code
                t
            → Ended fl H name s.queue s.done s.history (insert "_path" (str name) job) code t
        by_account code t again free_port (invalid_job why now e c r) = absurd (cc (e, again now))
        by_account code t again free_port (put_back c busy f) =
            absurd (Busy-absurd fl H calm free_port busy)
        by_account code t again free_port (ran e) = e

  -- The file that a written job is in.
  module _ (t : Texts F) (H : Host F) where
    new_file :
        (name : String) (v : Json F) (job : Fields F) (file : String) (before : Desk H)
        → read_job name before.queue ≡ none
        → read_job name (write_job fl t H file job before).queue ≡ some v
        → v ≡ obj job
    unfolding write_job put_file read_job
    new_file name v job file before fresh there =
        by_path (Bool-cases (has_char b'/' file)) (Bool-cases (file == name))
      where
        by_path :
            ((has_char b'/' file ≡ true) ⊎ (has_char b'/' file ≡ false))
            → ((file == name ≡ true) ⊎ (file == name ≡ false))
            → v ≡ obj job
        by_path (inl path) same =
            let old : read_job name before.queue ≡ some v = rw path at there in
            absurd (cc (old, fresh))
        by_path (inr plain) (inl same) =
            let stored : some (obj job) ≡ some v = rw (plain, same) at there in cc stored
        by_path (inr plain) (inr other) =
            let old : read_job name (remove_file file before.queue) ≡ some v =
              rw (plain, other) at there in
            absurd (cc (old, fresh, read_job-remove_file name file before.queue other))

  module _ (t : Texts F) (H : Host F) where
    -- A file of a job that a POST added stands for an accepted request.
    record Posted (q : Request F) (token : Option String) (v : Json F) : Type 0 where
      job : Fields F
      free : F
      content : v ≡ obj job
      carries : Carries token q.authorization
      valid : validate_job fl free (obj job) ≡ ok accepted

    Outcome-Posted :
        (q : Request F) (s after : Desk H) (name : String) (v : Json F)
        → Outcome fl t H q s.token s.queue s.elsewhere after
        → read_job name s.queue ≡ none
        → read_job name after.queue ≡ some v
        → Posted q s.token v
    Outcome-Posted q s after name v (untouched f) fresh there =
        absurd (cc (fresh, there, f.queue_same))
    Outcome-Posted q s after name v (written d free route short carries body valid stored) fresh
          there =
        record {
          job = prepare t q d;
          free = free;
          content =
              new_file t H name v (prepare t q d) (file_name t (prepare t q d)) stored.before
                (rw stored.queue_before fresh) (rw stored.queue_is at there);
          carries = carries;
          valid = (validate_job-iff-IsValid fl free (prepare t q d)).1 valid;
        }

    -- What the console queues is run. Let a POST leave a file in the queue that was not there, with a
    -- job that is no download, and let a session hold that file as its oldest, in a state of `Free`:
    -- states of the box in which pgrep finds none of the other users of the port, and that searching
    -- for them, writing files and measuring the disk do not leave. Let the files be writable and let
    -- sleeping advance the clock. Then the request carried the token of the token file, the file
    -- parses to an object, and the tick returns and has run the job to an end, recorded in the history
    -- and the archive.
    pub do_post-main :
        Writable H
        → Clock H
        → {Free : H.State → Type 0} → Calm fl H Free
        → (q : Request F) (s : Desk H) (name : String) (v : Json F) → read_job name s.queue ≡ none
        → read_job name (do_post fl t H q s).1.queue ≡ some v
        → ((d : Fields F) → v ≡ obj d → lookup "action" d ≢ some (str "download"))
        → (u : Session H) → oldest_job u.queue ≡ some name
        → read_job name u.queue ≡ some v
        → Free u.host
        → Carries s.token q.authorization
          × (job : Fields F) × (v ≡ obj job)
          × (code : ℕ) × ((main fl H false u).0 ≡ ok code)
          × Ended fl H name u.queue u.done u.history
              (insert "_path" (str name) job)
              code
              (main fl H false u).1
    do_post-main w clock calm q s name v fresh there other u oldest read port_free =
        let p =
          Outcome-Posted q s (do_post fl t H q s).1 name v (do_post-Outcome fl t H q s) fresh
            there in
        let (code, returned, ended) =
          picked-Ended H w calm p.free u name p.job oldest (rw p.content at read)
            (other p.job p.content) p.valid port_free in
        (p.carries, p.job, p.content, code, returned, ended)
