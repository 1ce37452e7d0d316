-- ===== src/History/Collect.antt =====
-- main of history_collector.py.
pub mod Marked
pub mod Quarantine
use runboard_lcp.Base.{
  String, Bool, true, Option, none, some, List, [], ◌∷◌, ◌++◌, ◌==◌, contains, if◌then◌else◌,
}
use runboard_lcp.Base.Assoc.{has_key}
use runboard_lcp.Base.Try.{Try, ok, raised, ◌>>=◌, attribute_error}
use runboard_lcp.Core.JobId.{Texts}
use runboard_lcp.Dispatcher.Queue.{name_le}
use runboard_lcp.History.Rates.{Statistics, EvalFamily, RowRates, family_kinds, kind_in}
use runboard_lcp.History.Runs.{Run, Grade, collect_run, manual_artifacts}
use runboard_lcp.History.Types.{EvalType, group_eval_types}
use runboard_lcp.Json.{Json, Fields, null, str, obj, field, end, lookup}
use runboard_lcp.Json.Falsy.{truthy}
use runboard_lcp.Metrics.Reals.{Reals}
use text.Mathlib.Text.{starts_with}

abbrev pub quarantine_reason : String
quarantine_reason =
    "three benchmark windows ran concurrently on a contended box; quality and speed are not comparable. Kept visible, excluded from every comparison."

-- DEPLOYED_LABEL
abbrev pub deployed_label : String
deployed_label = "EXL3 2.50bpw"

module _ (rl : Reals) (st : Statistics rl) (t : Texts rl.R) (lower : String → String)
    (less : rl.R → rl.R → Bool) where
  open rl use {R}

  -- A directory of the runs that has a summary: its name, the parsed summary (`{}` where it cannot be
  -- read) and the parsed rows.
  pub record Folder : Type 0 where
    pub name : String
    pub summary : Fields R
    pub rows : List (Json R)

  -- `reason`
  unfoldable pub reason_for : String → Option String
  reason_for name = if starts_with name "INVALID" then some quarantine_reason else none

  unfoldable pub collect_folders : List Folder → Try (List (Run rl st t))
  unfolding collect_run reason_for
  collect_folders [] = ok []
  collect_folders (d ∷ ds) =
      let rest = collect_folders ds in
      do
        r ← collect_run rl st t lower d.name d.summary d.rows (reason_for d.name)
        rs ← rest
        ok (r ∷ rs)

  -- The grades of one entry of closed_summary_families; a family that is empty is left out.
  unfoldable pub closed_grade : String → Json R → Try (Grade rl st t)
  unfolding kind_in truthy lookup
  closed_grade name (obj d) =
      let n = or_else (truthy rl.is_zero (lookup "n" d)) (lookup "transported" d) in
      ok (record {
        family = name;
        kind = kind_in family_kinds name;
        correct = lookup "correct" d;
        graded = not_null (lookup "grade_complete" d) n;
        n = n;
        accuracy_pct = lookup "accuracy_pct" d;
      })
    where
      or_else : Option (Json R) → Option (Json R) → Option (Json R)
      or_else none other = other
      or_else (some v) other = some v

      not_null : Option (Json R) → Option (Json R) → Option (Json R)
      not_null none other = other
      not_null (some null) other = other
      not_null (some v) other = some v
  closed_grade name v = raised attribute_error

  abbrev closed_one :
      String → Option (Json R) → Try (List (Grade rl st t)) → Try (List (Grade rl st t))
  closed_one name none rest = rest
  closed_one name (some v) rest = do g ← closed_grade name v; gs ← rest; ok (g ∷ gs)

  unfoldable pub closed_grades : Fields R → Try (List (Grade rl st t))
  unfolding closed_grade truthy
  closed_grades end = ok []
  closed_grades (field name v d) =
      let rest = closed_grades d in closed_one name (truthy rl.is_zero (some v)) rest

  -- closed_summary_families, of the parsed closed summary (`{}` where there is none)
  unfoldable pub closed_summary_families : String → Fields R → Try (List (Grade rl st t))
  unfolding closed_grades has_key truthy lookup
  closed_summary_families run_id closed =
      if has_key run_id manual_artifacts
      then of_families (truthy rl.is_zero (lookup "families" closed))
      else ok []
    where
      of_families : Option (Json R) → Try (List (Grade rl st t))
      of_families none = ok []
      of_families (some (obj d)) = closed_grades d
      of_families (some v) = raised attribute_error

  -- `families.update(merged)`
  unfoldable pub put_grade : Grade rl st t → List (Grade rl st t) → List (Grade rl st t)
  put_grade g [] = g ∷ []
  put_grade g (old ∷ gs) =
      let rest = put_grade g gs in if old.family == g.family then g ∷ gs else old ∷ rest

  unfoldable pub put_grades : List (Grade rl st t) → List (Grade rl st t) → List (Grade rl st t)
  unfolding put_grade
  put_grades [] gs = gs
  put_grades (m ∷ ms) gs = put_grades ms (put_grade m gs)

  -- One of the two lanes of the deployed pack.
  pub record Lane : Type 0 where
    pub folder : Folder
    pub note : String
    pub closed : Fields R

  unfoldable pub lane_run : Lane → List (Grade rl st t) → Run rl st t → Run rl st t
  unfolding put_grades
  lane_run lane merged e = record e {
    engine = "exllamav3 (r0b0tlab gb10)";
    quant = deployed_label;
    note = lane.note;
    grades = put_grades merged e.grades;
  }

  unfoldable pub collect_lane : Lane → Try (Run rl st t)
  unfolding collect_run closed_summary_families lane_run
  collect_lane lane =
      collect_run rl st t lower lane.folder.name lane.folder.summary lane.folder.rows none >>= λ e.
      closed_summary_families lane.folder.name lane.closed >>= λ merged. ok (lane_run lane merged e)

  unfoldable pub collect_lanes : List Lane → Try (List (Run rl st t))
  unfolding collect_lane
  collect_lanes [] = ok []
  collect_lanes (l ∷ ls) =
      let rest = collect_lanes ls in do r ← collect_lane l; rs ← rest; ok (r ∷ rs)

  abbrev pub unless_quarantined :
      Option String → Run rl st t → List (Run rl st t) → List (Run rl st t)
  unless_quarantined none r rs = r ∷ rs
  unless_quarantined (some reason) r rs = rs

  abbrev pub if_quarantined : Option String → Run rl st t → List (Run rl st t) → List (Run rl st t)
  if_quarantined none r rs = rs
  if_quarantined (some reason) r rs = r ∷ rs

  -- `if not r["quarantined"]` and the other way around; a reason is never empty.
  unfoldable pub valid_runs : List (Run rl st t) → List (Run rl st t)
  valid_runs [] = []
  valid_runs (r ∷ rs) = unless_quarantined r.quarantined r (valid_runs rs)

  unfoldable pub bad_runs : List (Run rl st t) → List (Run rl st t)
  bad_runs [] = []
  bad_runs (r ∷ rs) = if_quarantined r.quarantined r (bad_runs rs)

  -- Time stamps are texts.
  abbrev pub stamp_of : Option (Json R) → String
  stamp_of (some (str s)) = s
  stamp_of v = ""

  -- The newest first; runs of one time stay in their order.
  unfoldable pub insert_run : Run rl st t → List (Run rl st t) → List (Run rl st t)
  insert_run r [] = r ∷ []
  insert_run r (q ∷ qs) =
      let rest = insert_run r qs in
      if name_le (stamp_of q.timestamp) (stamp_of r.timestamp) then r ∷ q ∷ qs else q ∷ rest

  unfoldable pub sort_runs : List (Run rl st t) → List (Run rl st t)
  unfolding insert_run
  sort_runs [] = []
  sort_runs (r ∷ rs) = insert_run r (sort_runs rs)

  -- `if "deployed" in (r.get("quant") or "")`
  unfoldable pub mark_soak : List (Run rl st t) → List (Run rl st t)
  mark_soak [] = []
  mark_soak (r ∷ rs) =
      (if contains r.quant "deployed" then record r { load_soak = true } else r) ∷ mark_soak rs

  -- A row of the flat index.
  pub record IndexRow : Type 0 where
    pub eval_type : String
    pub kind : String
    pub run_id : String
    pub quant : String
    pub rates : RowRates rl

  unfoldable pub index_of_families : Run rl st t → List (EvalFamily rl st) → List IndexRow
  index_of_families r [] = []
  index_of_families r (d ∷ ds) =
      record {
        eval_type = d.id;
        kind = d.kind;
        run_id = r.run_id;
        quant = r.quant;
        rates = d.rates;
      }
      ∷ index_of_families r ds

  unfoldable pub eval_index : List (Run rl st t) → List IndexRow
  unfolding index_of_families
  eval_index [] = []
  eval_index (r ∷ rs) = index_of_families r r.by_eval_type ++ eval_index rs

  -- What history.json says of the runs.
  pub record History : Type 0 where
    pub runs : List (Run rl st t)
    pub quarantined : List (Run rl st t)
    pub eval_type_index : List IndexRow
    pub eval_types : List (EvalType rl st t)

  unfoldable pub history_with :
      List (Run rl st t) → List (Run rl st t) → List (EvalType rl st t) → History
  unfolding eval_index
  history_with valid bad types = record {
    runs = valid;
    quarantined = bad;
    eval_type_index = eval_index valid;
    eval_types = types;
  }

  unfoldable pub history_of : List (Run rl st t) → Try History
  unfolding valid_runs bad_runs sort_runs mark_soak history_with group_eval_types
  history_of runs =
      let valid = mark_soak (sort_runs (valid_runs runs)) in
      group_eval_types rl st t less valid >>= λ types. ok (history_with valid (bad_runs runs) types)

  -- main, of the directories in the order of their names and of the lanes whose summary exists
  unfoldable pub main : List Folder → List Lane → Try History
  unfolding collect_folders collect_lanes history_of
  main folders lanes = do
    runs ← collect_folders folders
    deployed ← collect_lanes lanes
    history_of (runs ++ deployed)
