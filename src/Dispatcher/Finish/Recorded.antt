-- ===== src/Dispatcher/Finish/Recorded.antt =====
-- What `finish` leaves behind where the files can be written.
use runboard_lcp.Base.{String, Option, some, List, [], ◌∷◌, ◌++◌, ◌≡◌, refl, last_n, arith}
use runboard_lcp.Base.Act.{◌>>◌}
use runboard_lcp.Base.Act.Keeps.{Keeps}
use runboard_lcp.Base.Act.Succeeds.{Ends, Ends-bind, Ends-keep}
use runboard_lcp.Dispatcher.Status.{set, log}
use runboard_lcp.Dispatcher.Doc.{Doc, Problem, Result, HistoryEntry}
use runboard_lcp.Dispatcher.Finish.{
  entry_of, history_keep, known_history, add_history, archive, finish,
}
use runboard_lcp.Dispatcher.Frame.{Frame, Frame-Steady}
use runboard_lcp.Dispatcher.Queue.{read_job, remove_file, put_file}
use runboard_lcp.Dispatcher.Session.{Folder, Session}
use runboard_lcp.Dispatcher.Writes.{Writable, set-Succeeds}
use runboard_lcp.Host.{Host}
use runboard_lcp.Json.{Fields, lookup}

module _ {F : Type 0} (H : Host F) (name : String) (queue done : Folder F)
    (history : Option (List (HistoryEntry F))) where
  -- The file has moved from the queue to the archive, and the history ends with `e`.
  abbrev pub Moved : HistoryEntry F → Session H → Type 0
  Moved e =
      Frame H (remove_file name queue) (put_file name (read_job name queue) done)
        (some (last_n history_keep (known_history H history ++ e ∷ [])))

  -- The entry is about the job, and says how it ended.
  pub record Recorded (job : Fields F) (state : String) (result : Option (Result F))
      (error : Option Problem) (t : Session H) : Type 0 where
    pub entry : HistoryEntry F
    pub moved : Moved entry t
    pub job_id : entry.job_id ≡ lookup "job_id" job
    pub state_is : entry.state ≡ state
    pub result_is : entry.result ≡ result
    pub error_is : entry.error ≡ error

module _ {F : Type 0} (H : Host F) (w : Writable H) (name : String) (queue done : Folder F)
    (history : Option (List (HistoryEntry F))) where
  abbrev Start : Session H → Type 0
  Start = Frame H queue done history

  abbrev Listed : HistoryEntry F → Session H → Type 0
  Listed e = Frame H queue done (some (last_n history_keep (known_history H history ++ e ∷ [])))

  add_history-Ends : (e : HistoryEntry F) → Ends Start (add_history H e) (λ _. Listed e)
  unfolding add_history
  add_history-Ends e = record { at = λ s f. (tt, rw (w s.host), rw (w s.host) (ground arith)) }

  archive-Ends :
      (e : HistoryEntry F)
      → Ends (Listed e) (archive H name) (λ _. Moved H name queue done history e)
  unfolding archive
  archive-Ends e = record { at = λ s f. (tt, rw (w s.host), rw (w s.host) (ground arith)) }

  module _ (job : Fields F) (state : String) (result : Option (Result F))
      (error : Option Problem) where
    abbrev Done : Session H → Type 0
    Done = Recorded H name queue done history job state result error

    -- The entry that `finish` makes is about the job.
    abbrev About : HistoryEntry F → Type 0
    About e =
        (e.job_id ≡ lookup "job_id" job)
        × (e.state ≡ state)
        × (e.result ≡ result)
        × (e.error ≡ error)

    rest-Ends :
        (e : HistoryEntry F) (change : Doc F → Doc F)
        → About e
        → Ends (Listed e) (do set H change; archive H name) (λ _. Done)
    rest-Ends e change about =
        Ends-bind (set H change) (λ _. archive H name)
          (Ends-keep (set H change) ((Frame-Steady H queue done _).on_set change)
            (set-Succeeds H w change))
          λ _. record {
            at = λ s f.
                let (a, p, moved) = (archive-Ends e).at s f in
                (
                  a,
                  p,
                  record {
                    entry = e;
                    moved = moved;
                    job_id = about.0;
                    state_is = about.1;
                    result_is = about.2;
                    error_is = about.3;
                  },
                );
          }

    pub finish-Ends : Ends Start (finish H name job state result error) (λ _. Done)
    unfolding finish
    finish-Ends = record {
      at = λ s f.
          (Ends-bind (add_history H (entry_of H job state result error s.doc)) _
              (add_history-Ends (entry_of H job state result error s.doc))
              (λ _.
                rest-Ends (entry_of H job state result error s.doc) _
                  (unfold entry_of in (refl, refl, refl, refl)))).at
            s f;
    }

module _ {F : Type 0} (H : Host F) (name : String) (queue done : Folder F)
    (history : Option (List (HistoryEntry F))) (job : Fields F) (state : String)
    (result : Option (Result F)) (error : Option Problem) where
  pub log-Recorded :
      (line : String)
      → Keeps (Recorded H name queue done history job state result error) (log H line)
  log-Recorded line = record {
    at = λ s r. record {
      entry = r.entry;
      moved = ((Frame-Steady H _ _ _).on_log line).at s r.moved;
      job_id = r.job_id;
      state_is = r.state_is;
      result_is = r.result_is;
      error_is = r.error_is;
    };
  }
