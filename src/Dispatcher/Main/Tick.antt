-- ===== src/Dispatcher/Main/Tick.antt =====
-- The whole tick on a job file that parses to an object.
use runboard_lcp.Base.Assoc.{has_key, find_key}
use runboard_lcp.Base.Int.{ℤ}
use runboard_lcp.Base.{
  Bool, rstrip, eq_iff, is_empty, strip, true, ◌⊎◌, inl, inr, Bool-cases, if◌then◌else◌, [], ◌∷◌,
  ◌<>◌, ℕ, String, false, Option, none, some, List, ◌≡◌, refl, arith,
}
use runboard_lcp.Base.Act.{◌>>=◌, pure, match_option, capture}
use runboard_lcp.Base.Act.Succeeds.{Ends, Ends-bind, Ends-pure, Ends-weaken, Ends-capture}
use runboard_lcp.Base.Try.{ok}
use runboard_lcp.Core.Disk.{Check, Refusal, accepted, refused, disk_free_gb}
use runboard_lcp.Core.Floats.{Floats}
use runboard_lcp.Core.Jobs.{validate_job}
use runboard_lcp.Dispatcher.Doc.{Doc, invalid, HistoryEntry}
use runboard_lcp.Dispatcher.Finish.Recorded.{Recorded, finish-Ends}
use runboard_lcp.Dispatcher.Finish.{finish}
use runboard_lcp.Dispatcher.Frame.{Frame, Frame-Steady}
use runboard_lcp.Dispatcher.Main.{
  write_back, defer, refuse, run_or_defer, pick, start, main, run_job,
}
use runboard_lcp.Dispatcher.Main.Accounts.{Ended, run_job-Ends}
use runboard_lcp.Dispatcher.Queue.{oldest_job, read_job, remove_file, put_file}
use runboard_lcp.Dispatcher.Session.{Exec, modify, Folder, Session, on_host, run, ending}
use runboard_lcp.Dispatcher.Status.{set, log, new_status}
use runboard_lcp.Dispatcher.Switch.{
  port_users, busy_in, busy_with_something_else, match_check, lift,
}
use runboard_lcp.Dispatcher.Writes.{Writable, set-Succeeds}
use runboard_lcp.Host.{Host}
use runboard_lcp.Json.{obj, str, Fields, insert, without}

module _ (fl : Floats) where
  open fl use {F}

  module _ (H : Host F) where
    -- The states of the box from one on, through what a tick does before it runs a job: it writes files,
    -- measures the disk, and looks for the other users of the port.
    pub data Reached (from : H.State) : H.State → Type 0 where
      here : Reached from from
      wrote : {h : H.State} → Reached from h → Reached from (H.file_error h).1
      measured : {h : H.State} → Reached from h → Reached from (H.disk_usage h).1
      searched :
          {h : H.State} (pattern : String)
          → Reached from h
          → Reached from (H.subprocess ("pgrep" ∷ "-f" ∷ pattern ∷ []) 10 h).1

    -- One of the other users of the port was found running, in a state that the tick came to before it
    -- ran anything else.
    pub record Busy (from : H.State) (users : List (String × String)) : Type 0 where
      pub pattern : String
      pub is_user : has_key pattern users ≡ true
      pub state : H.State
      pub reached : Reached from state
      pub found :
          is_empty (strip (ending H (H.subprocess ("pgrep" ∷ "-f" ∷ pattern ∷ []) 10 state).0).1)
          ≡ false

    -- How a tick leaves the job that it picked: refused by validation, put back because another
    -- measurement is running, or run to an end.
    pub data Accounted (from : H.State) (name : String) (queue done : Folder F)
        (history : Option (List (HistoryEntry F))) (job : Fields F) : ℕ → Session H → Type 0 where
      invalid_job :
          {code : ℕ} {t : Session H} (why : Refusal) (free : F)
          → validate_job fl free (obj job) ≡ ok (refused why)
          → code ≡ 2
          → Recorded H name queue done history job "failed" none (some (invalid why)) t
          → Accounted from name queue done history job code t
      put_back :
          {code : ℕ} {t : Session H}
          → code ≡ 0
          → Busy from port_users
          → Frame H
              (put_file name (some (obj (without "_path" job))) (remove_file name queue))
              done
              history
              t
          → Accounted from name queue done history job code t
      ran :
          {code : ℕ} {t : Session H}
          → Ended fl H name queue done history job code t
          → Accounted from name queue done history job code t

    module _ (w : Writable H) (from : H.State) (name : String) (queue done : Folder F)
        (history : Option (List (HistoryEntry F))) (job : Fields F) where
      -- Nothing has been moved, and nothing has been run but the searches.
      record Start (s : Session H) : Type 0 where
        frame : Frame H queue done history s
        reached : Reached from s.host

      abbrev Account : ℕ → Session H → Type 0
      Account = Accounted from name queue done history job

      write_back-Ends : Ends Start (write_back fl H name job) (λ _.
          Frame H
            (put_file name (some (obj (without "_path" job))) (remove_file name queue))
            done
            history)
      unfolding write_back
      write_back-Ends = record {
        at = λ s f. let g = f.frame in (tt, rw (w s.host, w) refl, rw (w s.host, w) (ground arith));
      }

      changed : (change : Doc F → Doc F) → Ends Start (set H change) (λ _. Start)
      unfolding set
      changed change = record {
        at = λ s f.
            let (a, e) = (set-Succeeds H w change).at s in
            (
              a,
              e,
              record {
                frame = ((Frame-Steady H queue done history).on_set change).at s f.frame;
                reached = rw (w s.host) (wrote f.reached);
              },
            );
      }

      noted :
          (b : Bool) (logs : List String) (s : Session H)
          → Start s
          → Start (if b then s else record s { logs = logs })
      noted true logs s f = f
      noted false logs s f = record {
        frame = record {
          queue_same = f.frame.queue_same;
          done_same = f.frame.done_same;
          history_same = f.frame.history_same;
        };
        reached = f.reached;
      }

      logged : (line : String) → Ends Start (log H line) (λ _. Start)
      unfolding log
      logged line =
          Ends-bind (modify H _) _
            (record { at = λ s f. (tt, refl, noted (is_empty (rstrip line)) _ s f) })
            (λ _. changed (λ doc. doc))

      from_Frame :
          {A : Type 0} {Q : A → Session H → Type 0} (m : Exec H A)
          → Ends (Frame H queue done history) m Q
          → Ends Start m Q
      from_Frame m k = record { at = λ s f. Ends.at k s f.frame }

      defer-Ends :
          Busy from port_users → (label : String) → Ends Start (defer fl H name job label) Account
      unfolding defer
      defer-Ends busy label = Ends-bind (log H ("deferring: " <> label)) _ (logged _) λ _.
          Ends-bind (set H _) _ (changed _) λ _.
            Ends-bind (capture (write_back fl H name job)) (λ _. pure 0)
              (Ends-capture (write_back fl H name job) write_back-Ends)
              (λ _. Ends-pure 0 (λ s f. put_back refl busy f))

      refuse-Ends :
          (why : Refusal) (free : F)
          → validate_job fl free (obj job) ≡ ok (refused why)
          → Ends Start (refuse fl H name job why) Account
      unfolding refuse
      refuse-Ends why free e = Ends-bind (log H "validation failed") _ (logged _) λ _.
          Ends-bind (finish H name job "failed" none (some (invalid why))) (λ _. pure 2)
            (from_Frame _
              (finish-Ends H w name queue done history job "failed" none (some (invalid why))))
            (λ _. Ends-pure 2 (λ s r. invalid_job why free e refl r))

      -- What a list of users was found to be: none of them, or one with its evidence.
      Found : List (String × String) → Option String → Session H → Type 0
      Found users none = Start
      Found users (some label) = λ t. Busy from users × Start t

      Found-more :
          (p label : String) (users : List (String × String)) (o : Option String) (t : Session H)
          → Found users o t
          → Found ((p, label) ∷ users) o t
      unfolding Found has_key find_key
      Found-more p label users none t f = f
      Found-more p label users (some l) t (busy, f) = (
        record {
          pattern = busy.pattern;
          is_user = ground (arith, busy.is_user);
          state = busy.state;
          reached = busy.reached;
          found = busy.found;
        },
        f,
      )

      -- `pgrep` for a pattern, with the state in which it ran.
      Asked : String → ℤ × String × String → Session H → Type 0
      Asked p end t =
          Start t
          × (h : H.State) × Reached from h
          × (end ≡ ending H (H.subprocess ("pgrep" ∷ "-f" ∷ p ∷ []) 10 h).0)

      pgrep-Ends : (p : String) → Ends Start (run H ("pgrep" ∷ "-f" ∷ p ∷ []) 10) (Asked p)
      unfolding run Asked
      pgrep-Ends p = record {
        at = λ s f. (
          ending H (H.subprocess ("pgrep" ∷ "-f" ∷ p ∷ []) 10 s.host).0,
          refl,
          (
            record {
              frame = record {
                queue_same = f.frame.queue_same;
                done_same = f.frame.done_same;
                history_same = f.frame.history_same;
              };
              reached = searched p f.reached;
            },
            s.host,
            f.reached,
            refl,
          ),
        );
      }

      busy_in-Ends : (users : List (String × String)) → Ends Start (busy_in H users) (Found users)
      unfolding busy_in Found Asked has_key find_key
      busy_in-Ends [] = Ends-pure none (λ s f. f)
      busy_in-Ends ((p, label) ∷ users) =
          Ends-bind (run H ("pgrep" ∷ "-f" ∷ p ∷ []) 10) _ (pgrep-Ends p)
            λ end. by_output end (Bool-cases (is_empty (strip end.1))) (busy_in-Ends users)
        where
          by_output :
              (end : ℤ × String × String)
              → ((is_empty (strip end.1) ≡ true) ⊎ (is_empty (strip end.1) ≡ false))
              → Ends Start (busy_in H users) (Found users)
              → Ends
                  (Asked p end)
                  (if is_empty (strip end.1) then busy_in H users else pure (some label))
                  (Found ((p, label) ∷ users))
          by_output end (inl quiet) rest = record {
            at = λ s asked.
                rw quiet (
                  Ends.at (Ends-weaken _ rest (λ o t f. Found-more p label users o t f)) s asked.0);
          }
          by_output end (inr found) rest = record {
            at = λ s (f, h, r, same). rw found (
              some label,
              refl,
              (
                record {
                  pattern = p;
                  is_user = rw (has_key, find_key, (eq_iff p p).1 refl) refl;
                  state = h;
                  reached = r;
                  found = rw same at found;
                },
                f,
              ),
            );
          }

      run_or_defer-Ends : Ends Start (run_or_defer fl H name job) Account
      unfolding run_or_defer busy_with_something_else Found
      run_or_defer-Ends =
          Ends-bind (log H "validated: ok") _ (logged _)
            λ _. Ends-bind (busy_in H port_users) _ (busy_in-Ends port_users) λ busy. by_label busy
        where
          by_label :
              (busy : Option String)
              → Ends
                  (Found port_users busy)
                  (match_option busy (run_job fl H name job) (defer fl H name job))
                  Account
          by_label none =
              Ends-weaken _ (from_Frame _ (run_job-Ends fl H w name queue done history job))
                (λ c t e. ran e)
          by_label (some label) = record { at = λ s (busy, f). Ends.at (defer-Ends busy label) s f }

      by_verdict :
          (v : Check) (free : F)
          → validate_job fl free (obj job) ≡ ok v
          → Ends Start (match_check H v (refuse fl H name job) (run_or_defer fl H name job)) Account
      by_verdict accepted free e = run_or_defer-Ends
      by_verdict (refused why) free e = refuse-Ends why free e

    module _ (w : Writable H) (from : H.State) (name : String) (queue done : Folder F)
        (history : Option (List (HistoryEntry F))) (picked : Fields F) where
      abbrev job : Fields F
      job = insert "_path" (str name) picked

      -- The verdict of validation, whatever the free space is.
      abbrev Decided : Type 0
      Decided = (free : F) → (v : Check) × (validate_job fl free (obj job) ≡ ok v)

      abbrev Begins : Session H → Type 0
      Begins = Start w from name queue done history job

      pick-Ends :
          Decided → Ends Begins (pick fl H name picked) (Accounted from name queue done history job)
      unfolding pick
      pick-Ends decided =
          Ends-bind (λ s. (ok s, s)) _ here
            λ s. Ends-bind (set H _) _ (changed w from name queue done history job _) λ _.
              Ends-bind (log H "picked job") _ (logged w from name queue done history job _) λ _.
                Ends-bind (on_host H H.disk_usage) _
                  (record {
                    at = λ s f. (
                      (H.disk_usage s.host).0,
                      refl,
                      record {
                        frame = record {
                          queue_same = f.frame.queue_same;
                          done_same = f.frame.done_same;
                          history_same = f.frame.history_same;
                        };
                        reached = measured f.reached;
                      },
                    );
                  })
                  λ free. by_free (disk_free_gb fl free) (decided (disk_free_gb fl free))
        where
          here : Ends Begins (λ s. (ok s, s)) (λ _. Begins)
          here = record { at = λ s f. (s, refl, f) }

          by_free :
              (free : F)
              → (v : Check) × (validate_job fl free (obj job) ≡ ok v)
              → Ends Begins
                  (do
                    verdict ← lift H (validate_job fl free (obj job))
                    match_check H verdict (refuse fl H name job) (run_or_defer fl H name job))
                  (Accounted from name queue done history job)
          by_free free (v, e) = record {
            at = λ s f.
                rw (e, ◌>>=◌)
                  (Ends.at (by_verdict w from name queue done history job v free e) s f);
          }

      new_status-Ends : Ends Begins (new_status H) (λ _. Begins)
      unfolding new_status
      new_status-Ends = record {
        at = λ s f. (
          tt,
          rw (w s.host) refl,
          record {
            frame = let g = f.frame in rw (w s.host) (ground arith);
            reached = rw (w s.host) (wrote f.reached);
          },
        );
      }

      start-Ends :
          Decided
          → Ends Begins
              (start fl H name (some (obj picked)))
              (Accounted from name queue done history job)
      unfolding start
      start-Ends decided =
          Ends-bind (new_status H) (λ _. pick fl H name picked) new_status-Ends
            (λ _. pick-Ends decided)

  -- On a job file that parses to an object and that validation decides on, with files that can be
  -- written and no other dispatcher, the tick returns, and the job was refused with code 2 because
  -- validation refuses it, put back into the queue because one of the other users of the port was
  -- found running, in a state that the tick came to by writing files, measuring the disk and searching
  -- for such users, or run to an end; a refused or ended job is in the history and the archive with
  -- its state, error and result.
  pub main-Accounted :
      (H : Host F)
      → Writable H
      → (s : Session H) (name : String) (picked : Fields F) → oldest_job s.queue ≡ some name
      → read_job name s.queue ≡ some (obj picked)
      → ((free : F)
          → (v : Check) × (validate_job fl free (obj (insert "_path" (str name) picked)) ≡ ok v))
      → (code : ℕ) × ((main fl H false s).0 ≡ ok code)
        × Accounted H s.host name s.queue s.done s.history
            (insert "_path" (str name) picked)
            code
            (main fl H false s).1
  unfolding main
  main-Accounted H w s name picked oldest read decided =
      rw (oldest, read)
        (Ends.at (start-Ends H w s.host name s.queue s.done s.history picked decided) s (record {
          frame = record { queue_same = refl; done_same = refl; history_same = refl };
          reached = here;
        }))
