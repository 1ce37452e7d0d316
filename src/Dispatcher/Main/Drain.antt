-- ===== src/Dispatcher/Main/Drain.antt =====
-- Tick after tick, as the timer starts them.
use runboard_lcp.Base.{
  ℕ, zero, suc, String, ◌≡◌, refl, ◌∙◌, arith, eq_iff, ◌⊎◌, inl, inr, Bool, true, false, Option,
  none, some, [], ◌∷◌, ◌==◌, ◌≤◌, ◌<◌, length, is_empty, strip, Bool-cases, Option-cases,
  if◌then◌else◌,
}
use runboard_lcp.Base.Try.{ok}
use runboard_lcp.Core.Disk.{Check}
use runboard_lcp.Core.Floats.{Floats}
use runboard_lcp.Core.Jobs.{validate_job}
use runboard_lcp.Dispatcher.Clock.{Clock}
use runboard_lcp.Dispatcher.Main.{main}
use runboard_lcp.Dispatcher.Main.Accounts.{crashed, run_failed, is_done}
use runboard_lcp.Dispatcher.Main.Idle.{main-Resumed}
use runboard_lcp.Dispatcher.Main.Tick.{
  Accounted, Busy, Reached, here, wrote, measured, searched, invalid_job, put_back, ran,
  main-Accounted,
}
use runboard_lcp.Dispatcher.Queue.{names, oldest_job, read_job, remove_file, put_file}
use runboard_lcp.Dispatcher.Queue.Folders.{
  listed, oldest_job-listed, oldest_job-none, read_job-listed, listed-remove_file,
  read_job-remove_file, remove_file-shorter,
}
use runboard_lcp.Dispatcher.Session.{Folder, Session, ending}
use runboard_lcp.Base.Assoc.{has_key}
use runboard_lcp.Dispatcher.Switch.{port_users}
use runboard_lcp.Dispatcher.Writes.{Writable}
use runboard_lcp.Host.{Host}
use runboard_lcp.Json.{Json, Fields, obj, str, insert}
use text.Mathlib.Text.{starts_with}

module _ (fl : Floats) where
  open fl use {F}

  -- A file that parses to an object, on which validation decides.
  pub record IsJob (name : String) (v : Option (Json F)) : Type 0 where
    pub fields : Fields F
    pub parsed : v ≡ some (obj fields)
    pub decided :
        (free : F)
        → (c : Check) × (validate_job fl free (obj (insert "_path" (str name) fields)) ≡ ok c)

  -- Every file of the folder is one.
  unfoldable pub AllJobs : Folder F → Type 0
  AllJobs [] = Unit {0}
  AllJobs ((n, v) ∷ q) = IsJob n v × AllJobs q

  AllJobs-remove_file : (n : String) (q : Folder F) → AllJobs q → AllJobs (remove_file n q)
  unfolding AllJobs remove_file
  AllJobs-remove_file n [] all = all
  AllJobs-remove_file n ((k, v) ∷ q) (first, rest) = kept (k == n) (AllJobs-remove_file n q rest)
    where
      kept :
          (same : Bool)
          → AllJobs (remove_file n q)
          → AllJobs (if same then remove_file n q else (k, v) ∷ remove_file n q)
      kept true r = r
      kept false r = (first, r)

  read_job-IsJob :
      (n : String) (q : Folder F) → AllJobs q → listed n (names q) ≡ true → IsJob n (read_job n q)
  unfolding AllJobs read_job listed
  read_job-IsJob n [] all h = cc
  read_job-IsJob n ((k, v) ∷ q) (first, rest) h =
      by_name (Bool-cases (k == n)) (read_job-IsJob n q rest)
    where
      by_name :
          ((k == n) ≡ true) ⊎ ((k == n) ≡ false)
          → (listed n (names q) ≡ true → IsJob n (read_job n q))
          → IsJob n (if k == n then v else read_job n q)
      by_name (inl same) r = rw same (rw ((eq_iff k n).0 same) at first)
      by_name (inr other) r = rw other (r (rw other at h))

  module _ (H : Host F) where
    -- `Free` tells the states of the box in which none of the other users of the port runs that the
    -- dispatcher looks for. What a tick does before it runs a job starts none of them.
    pub record Calm (Free : H.State → Type 0) : Type 0 where
      pub finds_nobody :
          (pattern : String) (h : H.State)
          → has_key pattern port_users ≡ true
          → Free h
          → is_empty (strip (ending H (H.subprocess ("pgrep" ∷ "-f" ∷ pattern ∷ []) 10 h).0).1)
            ≡ true
      pub on_search :
          (pattern : String) (h : H.State)
          → Free h
          → Free (H.subprocess ("pgrep" ∷ "-f" ∷ pattern ∷ []) 10 h).1
      pub on_file : (h : H.State) → Free h → Free (H.file_error h).1
      pub on_disk : (h : H.State) → Free h → Free (H.disk_usage h).1

    module _ {Free : H.State → Type 0} (calm : Calm Free) where
      Reached-Free : {from h : H.State} → Free from → Reached fl H from h → Free h
      Reached-Free f here = f
      Reached-Free f (wrote {h} r) = calm.on_file h (Reached-Free f r)
      Reached-Free f (measured {h} r) = calm.on_disk h (Reached-Free f r)
      Reached-Free f (searched {h} p r) = calm.on_search p h (Reached-Free f r)

      -- From a state in which the port is free, no user is found.
      pub Busy-absurd : {from : H.State} → Free from → Busy fl H from port_users → ⊥
      Busy-absurd f busy = absurd (
          cc (
            busy.found,
            calm.finds_nobody busy.pattern busy.state busy.is_user (Reached-Free f busy.reached),
          ))

    unfoldable pub ticks : ℕ → Session H → Session H
    unfolding main
    ticks zero s = s
    ticks (suc n) s = ticks n (main fl H false s).1

    -- The file has moved from the queue to the archive.
    record Archived (name : String) (s t : Session H) : Type 0 where
      queue_is : t.queue ≡ remove_file name s.queue
      done_is : t.done ≡ put_file name (read_job name s.queue) s.done

    module _ (w : Writable H) {Free : H.State → Type 0} (calm : Calm Free) where
      archived :
          (name : String) (s : Session H) (job : Fields F) (code : ℕ) (t : Session H)
          → Free s.host
          → Accounted fl H s.host name s.queue s.done s.history job code t
          → Archived name s t
      archived name s job code t f (invalid_job why free e c r) = record {
        queue_is = r.moved.queue_same;
        done_is = r.moved.done_same;
      }
      archived name s job code t f (put_back c busy fr) = absurd (Busy-absurd calm f busy)
      archived name s job code t f (ran (crashed e c r)) = record {
        queue_is = r.moved.queue_same;
        done_is = r.moved.done_same;
      }
      archived name s job code t f (ran (run_failed x rc c e z r)) = record {
        queue_is = r.moved.queue_same;
        done_is = r.moved.done_same;
      }
      archived name s job code t f (ran (is_done x c e r)) = record {
        queue_is = r.moved.queue_same;
        done_is = r.moved.done_same;
      }

      tick-Archived :
          (s : Session H) (name : String)
          → AllJobs s.queue
          → oldest_job s.queue ≡ some name
          → Free s.host
          → Archived name s (main fl H false s).1
      tick-Archived s name all oldest f =
          let job = read_job-IsJob name s.queue all (oldest_job-listed name s.queue oldest) in
          let (code, returned, account) =
            main-Accounted fl H w s name job.fields oldest job.parsed job.decided in
          archived name s (insert "_path" (str name) job.fields) code (main fl H false s).1 f
            account

      -- A file of the queue is still there as it was, or it is in the archive as it was and in the queue no more.
      data Tracked (name : String) (v : Json F) : Session H → Type 0 where
        waits : {t : Session H} → read_job name t.queue ≡ some v → Tracked name v t
        archives :
            {t : Session H}
            → listed name (names t.queue) ≡ false
            → read_job name t.done ≡ some v
            → Tracked name v t

      move-Tracked :
          (moved name : String) (v : Json F) (s t : Session H)
          → listed moved (names s.queue) ≡ true
          → Archived moved s t
          → Tracked name v s
          → Tracked name v t
      unfolding put_file read_job
      move-Tracked moved name v s t there a tracked = by_name tracked (Bool-cases (moved == name))
        where
          by_name :
              Tracked name v s
              → ((moved == name) ≡ true) ⊎ ((moved == name) ≡ false)
              → Tracked name v t
          by_name (waits r) (inl same) =
              let is_name : moved ≡ name = (eq_iff moved name).0 same in
              archives (rw (a.queue_is, listed-remove_file name moved s.queue, same) refl)
                (rw (a.done_is, same) (rw is_name r))
          by_name (waits r) (inr other) =
              waits (rw (a.queue_is, read_job-remove_file name moved s.queue other) r)
          by_name (archives gone r) (inl same) =
              absurd (cc (gone, there, (eq_iff moved name).0 same))
          by_name (archives gone r) (inr other) =
              archives (rw (a.queue_is, listed-remove_file name moved s.queue, other) gone)
                (rw (a.done_is, other, read_job-remove_file name moved s.done other) r)

      ticks-idle :
          (n : ℕ) (s : Session H)
          → oldest_job s.queue ≡ none
          → ((ticks n s).queue ≡ s.queue) × ((ticks n s).done ≡ s.done)
      unfolding ticks
      ticks-idle zero s idle = (refl, refl)
      ticks-idle (suc n) s idle =
          let (_, _, _, _, queue_same, done_same, _) = main-Resumed fl H w s idle in
          let (q, d) = ticks-idle n (main fl H false s).1 (rw queue_same idle) in
          (q ∙ queue_same, d ∙ done_same)

      no_files-idle : (q : Folder F) → length (names q) ≤ 0 → oldest_job q ≡ none
      unfolding oldest_job
      no_files-idle [] small = refl
      no_files-idle (f ∷ q) small = absurd (omega (arith, small))

      Tracked-same :
          (name : String) (v : Json F) (s t : Session H)
          → t.queue ≡ s.queue
          → t.done ≡ s.done
          → Tracked name v s
          → Tracked name v t
      Tracked-same name v s t queue_same done_same (waits r) = waits (rw queue_same r)
      Tracked-same name v s t queue_same done_same (archives gone r) =
          archives (rw queue_same gone) (rw done_same r)

      ticks-Tracked :
          (n : ℕ) (s : Session H)
          → AllJobs s.queue
          → length (names s.queue) ≤ n
          → ((i : ℕ) → i < n → Free (ticks i s).host)
          → (oldest_job (ticks n s).queue ≡ none)
            × ((name : String) (v : Json F) → Tracked name v s → Tracked name v (ticks n s))
      unfolding ticks
      ticks-Tracked zero s all small free = (no_files-idle s.queue small, λ name v x. x)
      ticks-Tracked (suc n) s all small free =
          by_oldest (Option-cases (oldest_job s.queue)) (λ all_after fewer.
            ticks-Tracked n (main fl H false s).1 all_after fewer
              (λ i below. free (suc i) (omega (arith, below))))
        where
          by_oldest :
              ((oldest_job s.queue ≡ none) ⊎ ((name : String) × (oldest_job s.queue ≡ some name)))
              → (AllJobs (main fl H false s).1.queue
                  → length (names (main fl H false s).1.queue) ≤ n
                  → (oldest_job (ticks n (main fl H false s).1).queue ≡ none)
                    × ((name : String) (v : Json F)
                        → Tracked name v (main fl H false s).1
                        → Tracked name v (ticks n (main fl H false s).1)))
              → (oldest_job (ticks n (main fl H false s).1).queue ≡ none)
                × ((name : String) (v : Json F)
                    → Tracked name v s
                    → Tracked name v (ticks n (main fl H false s).1))
          by_oldest (inl idle) rest =
              let (queue_same, done_same) = ticks-idle (suc n) s idle in
              (
                rw queue_same idle,
                λ name v x.
                    Tracked-same name v s (ticks n (main fl H false s).1) queue_same done_same x,
              )
          by_oldest (inr (name, oldest)) rest =
              let there = oldest_job-listed name s.queue oldest in
              let a = tick-Archived s name all oldest (free 0 (omega arith)) in
              let fewer = remove_file-shorter name s.queue there in
              let (drained, kept) =
                rest (rw a.queue_is (AllJobs-remove_file name s.queue all))
                  (rw a.queue_is (omega (arith, fewer, small))) in
              (
                drained,
                λ other v x.
                    kept other v (move-Tracked name other v s (main fl H false s).1 there a x),
              )

      from_waiting :
          (name : String) (v : Json F) (s : Session H)
          → Tracked name v s
          → listed name (names s.queue) ≡ false
          → read_job name s.done ≡ some v
      from_waiting name v s (waits r) gone = absurd (cc (gone, read_job-listed name v s.queue r))
      from_waiting name v s (archives _ r) gone = r

      -- The dispatcher gets through its queue. Let the files be writable, let sleeping advance the
      -- clock, and let `Free` be a set of states of the box in which pgrep finds none of the other
      -- users of the port that the dispatcher looks for, and that searching for them, writing files
      -- and measuring the disk do not leave. Let every file of the queue parse to an object that
      -- validation decides on, let n be at least the number of files, and let the box be in `Free`
      -- when each of the next n ticks starts, whatever runs during a tick. Then after these ticks no
      -- visible file is in the queue, and each visible file that was in it is in the archive as it
      -- was.
      pub ticks-drain :
          Clock H
          → (n : ℕ) (s : Session H) → AllJobs s.queue
          → length (names s.queue) ≤ n
          → ((i : ℕ) → i < n → Free (ticks i s).host)
          → (name : String) (v : Json F) → starts_with name "." ≡ false
          → read_job name s.queue ≡ some v
          → (oldest_job (ticks n s).queue ≡ none) × (read_job name (ticks n s).done ≡ some v)
      ticks-drain clock n s all small free name v visible r =
          let (drained, kept) = ticks-Tracked n s all small free in
          (
            drained,
            from_waiting name v (ticks n s) (kept name v (waits r))
                (oldest_job-none name (ticks n s).queue drained visible),
          )
