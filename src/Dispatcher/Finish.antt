-- ===== src/Dispatcher/Finish.antt =====
-- `finish` of dispatcher.py: the entry in history.json, the last status and the archived job file.
pub mod Recorded
use runboard_lcp.Base.{
  ℕ, String, Bool, Option, none, some, List, [], ◌∷◌, ◌++◌, last_n, ◌==◌, if◌then◌else◌,
}
use runboard_lcp.Base.Act.{◌>>=◌, ◌>>◌, match_try, pure, capture}
use runboard_lcp.Base.Try.{Try, ok, raised}
use runboard_lcp.Core.Jobs.{job_public_view}
use runboard_lcp.Dispatcher.Doc.{Doc, Problem, Result, HistoryEntry}
use runboard_lcp.Dispatcher.Queue.{read_job, remove_file, put_file}
use runboard_lcp.Dispatcher.Session.{Session, Exec, touch_file, modify}
use runboard_lcp.Dispatcher.Status.{set, log}
use runboard_lcp.Host.{Host}
use runboard_lcp.Json.{Json, Fields, lookup}

abbrev pub history_keep : ℕ
history_keep = 200

module _ {F : Type 0} (H : Host F) where
  unfoldable pub entry_of :
      Fields F → String → Option (Result F) → Option Problem → Doc F → HistoryEntry F
  entry_of job state result error doc = record {
    job_id = lookup "job_id" job;
    action = lookup "action" job;
    preset = lookup "preset" job;
    engine = lookup "engine" job;
    repo = lookup "repo" job;
    revision = lookup "revision" job;
    state = state;
    error = error;
    result = result;
    previous_engine = doc.previous_engine;
    restored_to = doc.restored_to;
  }

  abbrev pub known_history : Option (List (HistoryEntry F)) → List (HistoryEntry F)
  known_history none = []
  known_history (some entries) = entries

  -- Reading history.json, appending the entry and writing the last 200 back.
  unfoldable pub add_history : HistoryEntry F → Exec H (Unit {0})
  add_history entry = do
    touch_file H
    modify H (λ s. record s {
      history = some (last_n history_keep (known_history s.history ++ entry ∷ []));
    })

  abbrev final_phase : String → Option String → Option String
  final_phase state phase = if state == "done" then some "done" else phase

  abbrev pub last_doc : Fields F → String → Option (Result F) → Option Problem → Doc F → Doc F
  last_doc job state result error doc = record doc {
    state = state;
    phase = final_phase state doc.phase;
    result = result;
    error = error;
    job = some (job_public_view job);
  }

  -- `Path(job["_path"]).rename(C.DONE / …)`
  unfoldable pub move_to_done : String → Exec H (Unit {0})
  move_to_done name = do
    touch_file H
    modify H (λ s. record s {
      queue = remove_file name s.queue;
      done = put_file name (read_job name s.queue) s.done;
    })

  unfoldable pub archive : String → Exec H (Unit {0})
  unfolding move_to_done
  archive name = do
    moved ← capture (move_to_done name)
    match_try moved pure (λ e. log H "could not archive job file")

  -- `name` is the file that `job["_path"]` names.
  unfoldable pub finish :
      String → Fields F → String → Option (Result F) → Option Problem → Exec H (Unit {0})
  finish name job state result error = do
    s ← (λ s. (ok (entry_of job state result error s.doc), s))
    add_history s
    set H (last_doc job state result error)
    archive name
