-- ===== src/Throughput/RunDir.antt =====
-- find_run_dir and block of run_throughput.py.
pub mod Match
use runboard_lcp.Base.{
  ℕ, String, ◌<>◌, Bool, true, false, not, ◌||◌, Option, none, some, List, [], ◌∷◌, ◌==◌, is_empty,
  if◌then◌else◌,
}
use runboard_lcp.Base.Assoc.{find_key}
use runboard_lcp.Base.Try.{Try, ok, ◌>>=◌}
use runboard_lcp.Core.Config.{Preset}
use runboard_lcp.Core.Hub.{is_in}
use runboard_lcp.Dispatcher.Queue.{sort_names}
use runboard_lcp.Json.{Json, str, Fields, lookup}
use runboard_lcp.Metrics.Reals.{Reals}
use runboard_lcp.Throughput.Compute.{Rounding, Throughput, of_good, compute}
use runboard_lcp.Throughput.Rows.{read_rows}
use text.Mathlib.Text.{starts_with}

-- Whether a directory is one of the job's.
unfoldable pub is_run_of : String → String → Bool
is_run_of job name = (name == job) || starts_with name (job <> "-")

unfoldable pub runs_of : String → List String → List String
unfolding is_run_of
runs_of job [] = []
runs_of job (name ∷ names) =
    let rest = runs_of job names in if is_run_of job name then name ∷ rest else rest

unfoldable pub last_name : List String → Option String
last_name [] = none
last_name (n ∷ []) = some n
last_name (n ∷ m ∷ ns) = last_name (m ∷ ns)

unfoldable pub last_run : String → Option (List String) → Option String
unfolding runs_of last_name
last_run job none = none
last_run job (some names) = last_name (sort_names (runs_of job names))

abbrev names_or_none : Option (List String) → List String
names_or_none none = []
names_or_none (some names) = names

-- `dirs` are the directories under the folder of the runs, `none` where it cannot be listed.
unfoldable pub named_run : String → Option String → Option (List String) → Option String
named_run job none dirs = none
named_run job (some engine) dirs =
    if is_empty engine
    then none
    else if is_in (names_or_none dirs) (job <> "-" <> engine)
    then some (job <> "-" <> engine)
    else none

abbrev pub or_else : Option String → Option String → Option String
or_else none other = other
or_else (some d) other = some d

unfoldable pub find_run_dir : String → Option String → Option (List String) → Option String
unfolding named_run last_run
find_run_dir job engine dirs =
    if is_empty job then none else or_else (named_run job engine dirs) (last_run job dirs)

-- Why the block has no numbers.
pub data Reason : Type 0 where
  no_run_active job_is no_directory no_rows : Reason

module _ (rl : Reals) (rd : Rounding rl) where
  open rl use {R}

  pub record Block : Type 0 where
    pub active : Bool
    pub reason : Option Reason
    pub rows_total : Option ℕ
    pub numbers : Throughput rl

  -- What a block says before any row is read.
  unfoldable pub empty_block : Bool → Reason → Option ℕ → Block
  unfolding of_good
  empty_block active reason total = record {
    active = active;
    reason = some reason;
    rows_total = total;
    numbers = of_good rl rd 0 0 [];
  }

  unfoldable pub block_of_rows : Option ℕ → List (Json R) → Try Block
  unfolding empty_block compute
  block_of_rows total [] = ok (empty_block true no_rows total)
  block_of_rows total (r ∷ rows) = do
    numbers ← compute rl rd (r ∷ rows)
    ok (record { active = true; reason = none; rows_total = total; numbers = numbers })

  unfoldable pub block_of_dir : Option ℕ → (String → List (Json R)) → Option String → Try Block
  unfolding empty_block block_of_rows
  block_of_dir total rows none = ok (empty_block true no_directory total)
  block_of_dir total rows (some dir) = block_of_rows total (rows dir)

  abbrev text_at : String → Fields R → Option String
  text_at key job = elim (lookup key job) [ some (str s) ↦ some s | v ↦ none ]

  abbrev text_or_empty : Option String → String
  text_or_empty none = ""
  text_or_empty (some s) = s

  abbrev hint_of : Option Preset → Option ℕ
  hint_of none = none
  hint_of (some p) = some p.rows_hint

  unfoldable pub total_rows : List (String × Preset) → Option String → Option ℕ
  unfolding find_key
  total_rows presets none = none
  total_rows presets (some name) = hint_of (find_key name presets)

  -- `rows dir` are the rows of the file in a directory of a run.
  unfoldable pub block :
      List (String × Preset)
      → Option (List String)
      → (String → List (Json R))
      → Fields R
      → Try Block
  unfolding lookup total_rows empty_block block_of_dir find_run_dir
  block presets dirs rows job =
      let id = text_or_empty (text_at "job_id" job) in
      let total = total_rows presets (text_at "preset" job) in
      if is_empty id
      then ok (empty_block false no_run_active total)
      else if not (text_or_empty (text_at "state" job) == "running")
      then ok (empty_block false job_is total)
      else block_of_dir total rows (find_run_dir id (text_at "engine" job) dirs)
