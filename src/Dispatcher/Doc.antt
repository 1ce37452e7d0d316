-- ===== src/Dispatcher/Doc.antt =====
-- The documents that dispatcher.py writes: status.json, and the entries of history.json. Time stamps
-- are left out.
use runboard_lcp.Base.{ℕ, String, Bool, Option, none, List, []}
use runboard_lcp.Base.Int.{ℤ}
use runboard_lcp.Base.Try.{Error}
use runboard_lcp.Core.Disk.{Refusal}
use runboard_lcp.Json.{Json, Fields}

-- What stands under "error": the text names an exception, a refusal, a measurement in the way, or
-- the exit code of the runner.
pub data Problem : Type 0 where
  unreadable_job : Problem
  exception : Error → Problem
  invalid : Refusal → Problem
  deferred : String → Problem
  runner_exited : ℤ → Problem

-- What do_eval found of the runner's summary.json.
pub data Summary (F : Type 0) : Type 0 where
  no_summary unreadable : Summary F
  summary : Json F → Summary F

pub record EvalResult (F : Type 0) : Type 0 where
  pub run_id : String
  pub preset : String
  pub rc : Option ℤ
  pub engine : String
  pub workers : ℕ
  pub killed_by_timeout : Bool
  pub summary : Summary F

pub data Result (F : Type 0) : Type 0 where
  served : String → Option String → Result F
  evaluated : EvalResult F → Result F
  downloaded : String → ℤ → Result F

pub record Restored : Type 0 where
  pub target : String
  pub rc : Option ℤ
  pub is_ok : Bool
  pub previous : String
  pub error : Option Error

-- The document of `default_doc`, and the progress fields that an eval or a download adds.
pub record Doc (F : Type 0) : Type 0 where
  pub state : String
  pub job : Option (Fields F)
  pub phase : Option String
  pub log_tail : List String
  pub result : Option (Result F)
  pub error : Option Problem
  pub previous_engine : Option (String × Option String)
  pub restored_to : Option Restored
  pub restoring_to : Option String
  pub off_baseline : Option Bool
  pub queue_depth : ℕ
  pub rows_seen : Option ℕ
  pub downloaded_gb : Option F

unfoldable pub default_doc : {F : Type 0} → Doc F
default_doc = record {
  state = "idle";
  job = none;
  phase = none;
  log_tail = [];
  result = none;
  error = none;
  previous_engine = none;
  restored_to = none;
  restoring_to = none;
  off_baseline = none;
  queue_depth = 0;
  rows_seen = none;
  downloaded_gb = none;
}

-- One finished job in history.json.
pub record HistoryEntry (F : Type 0) : Type 0 where
  pub job_id : Option (Json F)
  pub action : Option (Json F)
  pub preset : Option (Json F)
  pub engine : Option (Json F)
  pub repo : Option (Json F)
  pub revision : Option (Json F)
  pub state : String
  pub error : Option Problem
  pub result : Option (Result F)
  pub previous_engine : Option (String × Option String)
  pub restored_to : Option Restored
