-- ===== src/Live/Doc.antt =====
-- _job_block, _age_label and build_live of live_metrics.py.
use runboard_lcp.Base.{
  ℕ, String, ◌<>◌, Bool, true, false, ◌&&◌, ◌||◌, not, Option, none, some, List, [], ◌∷◌, ◌++◌,
  ◌==◌, length, is_empty, strip, if◌then◌else◌,
}
use runboard_lcp.Base.Assoc.{find_key}
use runboard_lcp.Base.Int.{pos}
use runboard_lcp.Base.Try.{Try, ok, raised, ◌>>=◌}
use runboard_lcp.Core.Config.{Preset}
use runboard_lcp.Json.{Json, Fields, null, bool, str, obj, field, end, lookup}
use runboard_lcp.Live.Boxes.{Detail, no_boxes, Item, Entry, items, box_block}
use runboard_lcp.Live.Sparks.{Spark}
use runboard_lcp.Live.Spec.{Window, BoxSpec, machine, run_rows, window_spec}
use runboard_lcp.Metrics.Card.{Printer}
use runboard_lcp.Metrics.Reals.{Reals}
use runboard_lcp.Throughput.Compute.{Rounding}
use runboard_lcp.Throughput.RunDir.{Block, block}

-- engine_metrics_note of the answer of the engine's page
unfoldable pub engine_metrics_note : Try String → String
engine_metrics_note (raised e) = "the serving engine on :18300 did not answer /metrics: "
engine_metrics_note (ok body) =
    if is_empty (strip body)
    then "the serving engine on :18300 exposes no /metrics endpoint: "
    else "the serving engine publishes Prometheus metrics on :18300; its own load is read now, see the engine block of /api/live, so nothing is missing here: "

module _ {F : Type 0} where
  -- `d.get(key)`, which is `None` where it is missing
  abbrev get_or_null : String → Fields F → Json F
  get_or_null key d = elim (lookup key d) [ none ↦ null | some v ↦ v ]

  unfoldable pub is_active : Json F → Bool
  is_active (str s) = (s == "queued") || (s == "running")
  is_active v = false

  abbrev job_dict : Option (Json F) → Fields F
  job_dict (some (obj d)) = d
  job_dict v = end

  abbrev progress : Bool → Fields F → Fields F
  progress false status = end
  progress true status =
      field "phase" (get_or_null "phase" status)
        (field "elapsed_s" (get_or_null "elapsed_s" status) end)

  unfoldable pub job_fields : Fields F → Fields F → Fields F
  unfolding is_active lookup
  job_fields status job = field "state" (get_or_null "state" status) (
      field "active" (bool (is_active (get_or_null "state" status))) (
        field "job_id" (get_or_null "job_id" job) (
          field "preset" (get_or_null "preset" job)
            (progress (is_active (get_or_null "state" status)) status))))

  -- _job_block
  unfoldable pub job_block : Option (Json F) → Fields F
  unfolding job_fields lookup
  job_block (some (obj status)) = job_fields status (job_dict (lookup "job" status))
  job_block status = field "active" (bool false) end

pub data SourceName : Type 0 where
  engine exporter prometheus : SourceName
  exporter_of : String → SourceName

pub data SourceDetail : Type 0 where
  told : String → SourceDetail
  of_box : Detail → SourceDetail
  cached : ℕ → SourceDetail

pub record Source : Type 0 where
  pub name : SourceName
  pub is_ok : Bool
  pub detail : SourceDetail

pub data RunNote : Type 0 where
  last_soak no_soak : RunNote

module _ (rl : Reals) (pr : Printer rl) (rd : Rounding rl) where
  open rl use {R}

  -- `fixed n x` is f"{x:.nf}", and `int_of x` the text of `int(x)`.
  unfoldable pub age_label : (ℕ → R → String) → (R → String) → R → String
  age_label fixed int_of age =
      if pr.less age (rl.of_int (pos 90))
      then int_of age <> "s ago"
      else if pr.less age (rl.of_int (pos 5400))
      then fixed 0 (rl.div age (rl.of_int (pos 60))) <> " min ago"
      else if pr.less age (rl.of_int (pos 172800))
      then fixed 1 (rl.div age (rl.of_int (pos 3600))) <> " h ago"
      else fixed 1 (rl.div age (rl.of_int (pos 86400))) <> " d ago"

  -- doc["run"]; the note is about a soak that has ended.
  pub record LoadRun : Type 0 where
    pub running : Bool
    pub state_age : Option R
    pub items : List (Item rl pr)
    pub label : Option String
    pub note : Option RunNote

  -- `bool(running) and running >= 1`
  unfoldable pub is_running : Option R → Bool
  is_running none = false
  is_running (some x) = not (rl.is_zero x) && not (pr.less x (rl.of_int (pos 1)))

  unfoldable pub note_of : Bool → Option R → Option RunNote
  note_of true age = none
  note_of false none = some no_soak
  note_of false (some age) =
      if pr.less (rl.of_int (pos 120)) age then some last_soak else some no_soak

  abbrev map_age : {A : Type 0} → (R → A) → Option R → Option A
  map_age f none = none
  map_age f (some x) = some (f x)

  unfoldable pub run_of : (R → String) → List (String × R) → LoadRun
  unfolding is_running note_of items find_key
  run_of label plain =
      let age = find_key "zgx_load_state_age_seconds" plain in
      let running = is_running (find_key "zgx_load_running" plain) in
      record {
        running = running;
        state_age = map_age (pr.round_to 1) age;
        items = items rl pr run_rows plain;
        label = map_age label age;
        note = note_of running age;
      }

  -- The one entry where no box is configured.
  abbrev no_entry : String → Entry rl pr
  no_entry url = record {
    key = "none";
    label = "no boxes configured";
    addr = "";
    role = "";
    url = url;
    is_ok = false;
    detail = no_boxes;
    items = items rl pr machine [];
  }

  unfoldable pub box_sources : List (Entry rl pr) → List Source
  box_sources [] = []
  box_sources (b ∷ bs) =
      record { name = exporter_of b.key; is_ok = b.is_ok; detail = of_box b.detail }
      ∷ box_sources bs

  -- /api/live, with the engine's block by whether it was reached and its first detail, and with the series
  -- that the caller has kept.
  pub record Document : Type 0 where
    pub window : Window
    pub job : Fields R
    pub metrics_note : String
    pub throughput : Block rl rd
    pub boxes : List (Entry rl pr)
    pub machine : List (Item rl pr)
    pub run : LoadRun
    pub sparks : List (Spark rl)
    pub sources : List Source

  abbrev some_sparks : List (Spark rl) → Bool
  some_sparks [] = false
  some_sparks (s ∷ ss) = true

  unfoldable pub document_of :
      Window
      → Fields R
      → String
      → Block rl rd
      → Bool × String
      → Entry rl pr
      → List (Entry rl pr)
      → LoadRun
      → List (Spark rl)
      → Document
  unfolding box_sources
  document_of w job metrics_note throughput (reachable, told_by) head others run sparks = record {
    window = w;
    job = job;
    metrics_note = metrics_note;
    throughput = throughput;
    boxes = head ∷ others;
    machine = head.items;
    run = run;
    sparks = sparks;
    sources =
        record { name = engine; is_ok = reachable; detail = told told_by }
          ∷ record { name = exporter; is_ok = head.is_ok; detail = of_box head.detail }
          ∷ box_sources others
        ++ record { name = prometheus; is_ok = some_sparks sparks; detail = cached (length sparks) }
          ∷ [];
  }

  abbrev head_entry : String → List (Entry rl pr) → Entry rl pr
  head_entry url [] = no_entry url
  head_entry url (b ∷ bs) = b

  abbrev rest_of : List (Entry rl pr) → List (Entry rl pr)
  rest_of [] = []
  rest_of (b ∷ bs) = bs

  -- build_live as live_doc calls it: with kept series, and without an exporter of its own.
  unfoldable pub build_live :
      (R → String)
      → List (String × Preset)
      → Option (List String)
      → (String → List (Json R))
      → (String → Try String)
      → (Bool × String)
      → List BoxSpec
      → List (Spark rl)
      → Option (Json R)
      → Option (Json R)
      → Try Document
  unfolding job_block block box_block run_of document_of engine_metrics_note window_spec
  build_live label presets dirs rows fetch engine_block spec sparks window status = do
    throughput ← block rl rd presets dirs rows (job_block status)
    let (boxes, plain) = box_block rl pr fetch none spec
    ok (
        document_of (window_spec window) (job_block status)
          (engine_metrics_note (fetch "http://127.0.0.1:18300/metrics")) throughput engine_block
          (head_entry "http://127.0.0.1:9400/metrics" boxes) (rest_of boxes) (run_of label plain)
          sparks)
