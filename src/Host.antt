-- ===== src/Host.antt =====
-- The box as the programs see it: processes, HTTP, files and the clock. All of it is outside the
-- repository, so it is a parameter; an operation may change the state of the box in any way.
use runboard_lcp.Base.{ℕ, String, Bool, Option, List}
use runboard_lcp.Base.Int.{ℤ}
use runboard_lcp.Base.Run.{Run}
use runboard_lcp.Base.Try.{Error, Try}
use runboard_lcp.Json.{Json}

-- The end of `subprocess.run`: an exit code with the two outputs, or an exception.
pub data Spawn : Type 0 where
  completed : ℤ → String → String → Spawn
  timed_out : Spawn
  not_started : Error → Spawn

-- A request to the engine on :18300: a page, or one chat completion by the named model.
pub data Request : Type 0 where
  page : String → Request
  chat : String → Request

-- A body is given by the value that it parses to, `none` where it is not JSON.
pub record Host (F : Type 0) : Type 1 where
  pub State : Type 0
  -- `subprocess.run(cmd, timeout=…)`
  pub subprocess : List String → ℕ → Run State Spawn
  -- `urllib.request.urlopen`
  pub urlopen : Request → Run State (Try (Option (Json F)))
  -- `Path(f"/proc/{pid}/maps").read_text()`
  pub maps : ℕ → Run State (Option String)
  -- The names that `VLLM_SITE.glob` finds for a pattern.
  pub dist_dirs : String → Run State (List String)
  -- `shutil.disk_usage(path).free`
  pub disk_usage : Run State (Option ℕ)
  -- A write or rename of a file: the exception that it raises, if any.
  pub file_error : Run State (Option Error)
  -- `subprocess.Popen(cmd)`, and then that process: `poll`, `terminate`, `kill`.
  pub popen : List String → Run State (Option Error)
  pub poll : Run State (Option ℤ)
  pub terminate : Run State (Unit {0})
  pub kill : Run State (Unit {0})
  -- `time.sleep` in seconds, `time.time()` in milliseconds
  pub sleep : ℕ → Run State (Unit {0})
  pub time : Run State ℕ
  -- The size that `dir_gb` finds for a repository's cache directory.
  pub cached_gb : String → Run State (Option F)
  -- The number of lines in `<bench>/<run_id>.rows.jsonl`, `none` where it cannot be read.
  pub count_rows : String → Run State (Option ℕ)
  -- The text of a job's log file, `none` where it cannot be read.
  pub read_log : String → Run State (Option String)
  -- `Path.exists()`
  pub exists : String → Run State Bool
  -- The parsed text of a file, `none` where it cannot be read or parsed.
  pub read_json : String → Run State (Option (Json F))
