-- ===== src/History/Runs.antt =====
-- collect_run, manual_status and closed_summary_families of history_collector.py.
use runboard_lcp.Base.{
  ℕ, String, ◌<>◌, Bool, false, ◌||◌, Option, none, some, List, [], ◌∷◌, length, contains,
  if◌then◌else◌,
}
use runboard_lcp.Base.Assoc.{find_key, has_key}
use runboard_lcp.Base.Try.{Try, ok, raised, ◌>>=◌, attribute_error}
use runboard_lcp.Core.Hub.{is_in}
use runboard_lcp.Core.JobId.{Texts, str_of}
use runboard_lcp.History.Rates.{Statistics, EvalFamily, family_kinds, kind_in, by_family, dicts_of}
use runboard_lcp.Json.{Json, Fields, obj, field, end, lookup}
use runboard_lcp.Json.Falsy.{truthy}
use runboard_lcp.Metrics.Reals.{Reals}

pub record Label : Type 0 where
  pub engine : String
  pub quant : String
  pub note : String

-- LABELS
abbrev pub labels : List (String × Label)
labels =
    (
      "prod-nvfp4-ablit-mtp3",
      record {
        engine = "vLLM (prod container)";
        quant = "NVFP4 + abliterated, MTP k=3";
        note = "the incumbent production engine";
      },
    )
    ∷ (
      "exl3-3.05bpw-mcs0-mtp",
      record {
        engine = "exllamav3 (r0b0tlab gb10)";
        quant = "EXL3 3.05bpw";
        note = "turboderp h5_ng5 pack, clean window, --moe-cpu-split 0";
      },
    )
    ∷ (
      "exl3-2.50bpw-mcs0-mtp",
      record {
        engine = "exllamav3 (r0b0tlab gb10)";
        quant = "EXL3 2.50bpw";
        note = "the pack chosen for deployment";
      },
    )
    ∷ (
      "cruz-fork-305bpw",
      record {
        engine = "exllamav3 (Cruz fork 329e051)";
        quant = "EXL3 3.05bpw";
        note = "his tuned fork on the same 3.05bpw pack; decode still far under his published 79";
      },
    )
    ∷ []

pub data Review : Type 0 where
  artifact report_only not_reviewed : Review

-- MANUAL_ARTIFACTS and REPORT_ONLY_MANUAL
abbrev pub manual_artifacts : List (String × String)
manual_artifacts = ("exl3-2.5bpw-deployed-180", "manual-evidence-2.5bpw.json") ∷ []

abbrev pub report_only_manual : List String
report_only_manual =
    "cruz-fork-305bpw" ∷ "exl3-3.05bpw-mcs0-mtp" ∷ "prod-nvfp4-ablit-mtp3" ∷ "exl3-2.50bpw-mcs0-mtp"
    ∷ []

-- manual_status, without the reason
unfoldable pub manual_status : String → Review
unfolding has_key
manual_status run_id =
    if has_key run_id manual_artifacts
    then artifact
    else if is_in report_only_manual run_id
    then report_only
    else not_reviewed

module _ (rl : Reals) (st : Statistics rl) (t : Texts rl.R) where
  open rl use {R}

  abbrev or_json : Option (Json R) → Option (Json R) → Option (Json R)
  or_json none other = other
  or_json (some v) other = some v

  -- The fields of the quality of a family, as the summary has them.
  pub record Grade : Type 0 where
    pub family : String
    pub kind : String
    pub correct : Option (Json R)
    pub graded : Option (Json R)
    pub n : Option (Json R)
    pub accuracy_pct : Option (Json R)

  -- One entry of `fam_results`.
  unfoldable pub grade_of : String → Json R → Try Grade
  unfolding kind_in lookup
  grade_of name (obj d) = ok (record {
    family = name;
    kind = kind_in family_kinds name;
    correct = lookup "correct" d;
    graded = or_json (lookup "grade_complete" d) (lookup "graded" d);
    n = lookup "n" d;
    accuracy_pct = lookup "accuracy_pct" d;
  })
  grade_of name v = raised attribute_error

  unfoldable pub grades_of : Fields R → Try (List Grade)
  unfolding grade_of
  grades_of end = ok []
  grades_of (field name v d) =
      let rest = grades_of d in do g ← grade_of name v; gs ← rest; ok (g ∷ gs)

  -- `(summ.get("families") or {}).items()`
  unfoldable pub grades_in : Fields R → Try (List Grade)
  unfolding grades_of truthy lookup
  grades_in summ = of_families (truthy rl.is_zero (lookup "families" summ))
    where
      of_families : Option (Json R) → Try (List Grade)
      of_families none = ok []
      of_families (some (obj d)) = grades_of d
      of_families (some v) = raised attribute_error

  pub record Run : Type 0 where
    pub run_id : String
    pub model : String
    pub engine : String
    pub quant : String
    pub note : String
    pub timestamp : Option (Json R)
    pub grades : List Grade
    pub by_eval_type : List (EvalFamily rl st)
    pub rows_seen : ℕ
    pub load_soak : Bool
    pub review : Review
    pub quarantined : Option String

  abbrev text_or : Option (Json R) → String → String
  text_or none other = other
  text_or (some v) other = str_of t v

  -- base_model: `lower` is `str.lower`
  unfoldable pub base_model : (String → String) → Fields R → String → String
  unfolding str_of truthy lookup
  base_model lower summ run_id =
      let mid = lower (text_or (truthy rl.is_zero (lookup "model" summ)) "" <> " " <> run_id) in
      if contains mid "flash-next" || contains mid "qwen3.8" || contains mid "qwen38"
      then "Qwen3.8-Flash-Next"
      else text_or (truthy rl.is_zero (lookup "model" summ)) run_id

  unfoldable pub label_of : Fields R → String → Label
  unfolding find_key str_of truthy lookup
  label_of summ run_id = elim (find_key run_id labels) [
    | some l ↦ l
    | none ↦ record {
      engine = text_or (truthy rl.is_zero (lookup "model" summ)) "unknown";
      quant = run_id;
      note = "";
    }
  ]

  -- The entry of a run.
  unfoldable pub entry_of_run :
      (String → String)
      → String
      → Fields R
      → List (Json R)
      → Option String
      → List (EvalFamily rl st)
      → List Grade
      → Run
  unfolding label_of base_model manual_status truthy lookup
  entry_of_run lower run_id summ rows reason per_eval grades =
      let label = label_of summ run_id in
      record {
        run_id = run_id;
        model = base_model lower summ run_id;
        engine = label.engine;
        quant = label.quant;
        note = label.note;
        timestamp =
            or_json (truthy rl.is_zero (lookup "timestamp" summ)) (lookup "started_utc" summ);
        grades = grades;
        by_eval_type = per_eval;
        rows_seen = length rows;
        load_soak = false;
        review = manual_status run_id;
        quarantined = reason;
      }

  -- collect_run, of the parsed summary (`{}` where it cannot be read) and the parsed rows
  unfoldable pub collect_run :
      (String → String) → String → Fields R → List (Json R) → Option String → Try Run
  unfolding dicts_of by_family grades_in entry_of_run
  collect_run lower run_id summ rows reason = dicts_of rl st rows >>= λ dicts.
      by_family rl st dicts >>= λ per_eval.
      grades_in summ >>= λ grades. ok (entry_of_run lower run_id summ rows reason per_eval grades)
