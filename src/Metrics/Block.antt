-- ===== src/Metrics/Block.antt =====
-- The document of the card: block of engine_metrics.py, and its memory.
pub mod Stops
use runboard_lcp.Base.{
  ℕ, ◌+◌, String, ◌<>◌, Bool, true, false, not, ◌&&◌, ◌||◌, Option, none, some, List, [], ◌∷◌, ◌++◌,
  ltb, ◌=ℕ=◌, show_nat, is_empty, map, if◌then◌else◌,
}
use runboard_lcp.Base.Try.{Try, ok, raised, ◌>>=◌}
use runboard_lcp.Json.{Json, str, arr, obj, cons, lookup}
use runboard_lcp.Metrics.Card.{
  Printer, Item, Rates, gauges, rates, recent_items, single_stream_item,
}
use runboard_lcp.Metrics.Names.{gauge_items, rate_items, Family, unknown, detect_family, expr_for}
use runboard_lcp.Metrics.Parse.{Sums, Parsed, parse_engine}
use runboard_lcp.Metrics.Prom.{Prometheus, instant}
use runboard_lcp.Metrics.Reals.{Reals}
use runboard_lcp.Metrics.Recent.{Recent, recent}
use runboard_lcp.Metrics.Series.{Line, Entry, entry_for, lines_of, series}
use runboard_lcp.Metrics.Stream.{Sampler, note_single_stream}

-- CACHE_S
abbrev pub cache_s : ℕ
cache_s = 15

abbrev model_text : Option String → String
model_text none = "unknown"
model_text (some m) = m

note_head : Bool → Bool → Option String → String
note_head false no_metrics model =
    "the serving engine on :18300 did not answer /metrics, so nothing here is sampled right now"
note_head true true model =
    "the serving engine on :18300 answered but published no metric series -- the EXL3 path exposes none, so there is nothing to read while it serves"
note_head true false model =
    "every request this engine served, whoever sent it (model "
    <> model_text model
    <> ") -- an eval run is not required for this card"

note_tail : Bool → String
note_tail true =
    "rates come from the engine's own counters over the trailing window, so a gap or a dash means that interval carried no such traffic -- it is not zero"
note_tail false =
    "the rates could not be read from Prometheus, so only the gauges above are sampled -- those come from the engine directly"

-- _note
unfoldable pub note : Bool → Bool → Bool → Option String → String
unfolding note_head note_tail
note reachable no_metrics prom_ok model =
    note_head reachable no_metrics model <> ". " <> note_tail prom_ok <> "."

-- One of the sources of the card, and whether it answered.
pub record Source : Type 0 where
  pub name : String
  pub is_ok : Bool

module _ (rl : Reals) (pr : Printer rl) where
  open rl use {R}

  pub record Document : Type 0 where
    pub is_ok : Bool
    pub reachable : Bool
    pub no_metrics : Bool
    pub model : Option String
    pub at : ℕ
    pub sources : List Source
    pub items : List (Item rl)
    pub series : List (Line rl)
    pub note : String

  -- A document that is kept, by its window and step.
  pub record Kept : Type 0 where
    pub window : ℕ
    pub step : ℕ
    pub document : Document

  pub record Memory : Type 0 where
    pub documents : List Kept
    pub charts : List (Entry rl)
    pub sampler : Sampler rl

  -- What the engine says: the text of /metrics, none on a failure, and the answer of /v1/models.
  pub record EngineAnswers : Type 0 where
    pub metrics : Option String
    pub served : Try (Json R)

  pub record EngineState : Type 0 where
    pub sums : Sums rl
    pub reachable : Bool
    pub no_metrics : Bool
    pub family : Family
    pub model : Option String

  abbrev is_empty_list : {A : Type 0} → List A → Bool
  is_empty_list [] = true
  is_empty_list (x ∷ xs) = false

  abbrev or_served : Option String → Option String → Option String
  or_served none served = served
  or_served (some m) served = some m

  id_text : Option (Json R) → Option String
  id_text (some (str s)) = if is_empty s then none else some s
  id_text v = none

  first_id : Option (Json R) → Option String
  unfolding id_text lookup
  first_id (some (arr (cons (obj d) rest))) = id_text (lookup "id" d)
  first_id v = none

  -- _openai_model: the id of the first model, a text; each exception gives none.
  unfoldable pub openai_model : Try (Json R) → Option String
  unfolding first_id lookup
  openai_model (ok (obj d)) = first_id (lookup "data" d)
  openai_model r = none

  -- The first source; the API is asked for the model where the exposition names none.
  unfoldable pub read_engine : Option String → Option String → EngineState
  unfolding parse_engine detect_family
  read_engine none served = record {
    sums = [];
    reachable = false;
    no_metrics = false;
    family = unknown;
    model = none;
  }
  read_engine (some text) served =
      let p = parse_engine rl text in
      record {
        sums = p.sums;
        reachable = true;
        no_metrics = is_empty_list p.sums;
        family = detect_family (map (λ s. s.0) p.sums);
        model = or_served p.model served;
      }

  -- The counter's own steps, where Prometheus still answers.
  unfoldable pub ask_recent : Prometheus rl → Family → ℕ → Bool → Recent rl × Bool
  unfolding recent
  ask_recent p family now false = (record { tokens = none; age = none }, false)
  ask_recent p family now true = elim (recent rl p family now) [
    | ok c ↦ (c, true)
    | raised e ↦ (record { tokens = none; age = none }, false)
  ]

  unfoldable pub ask_series :
      Prometheus rl → Family → ℕ → ℕ → ℕ → Bool → List (Entry rl) → List (Line rl) × List (Entry rl)
  unfolding series entry_for lines_of
  ask_series p family now window step true charts = series rl p family now window step charts
  ask_series p family now window step false charts =
      (lines_of rl (entry_for rl window step charts), charts)

  unfoldable pub asking : Prometheus rl → Family → String → Try (Option R)
  unfolding expr_for instant
  asking p family key = expr_for key family >>= λ query. instant rl p query

  -- The document that is made of what the engine said, and the memory it leaves.
  unfoldable pub assemble : Prometheus rl → EngineState → ℕ → ℕ → ℕ → Memory → Document × Memory
  unfolding note_single_stream gauges rates gauge_items rate_items ask_recent ask_series
      recent_items single_stream_item note asking
  assemble p r now window step memory =
      let sampler = note_single_stream rl r.sums r.family memory.sampler in
      let asked = rates rl pr (asking p r.family) r.family true rate_items in
      let (steps, prom_ok) = ask_recent p r.family now asked.prom_ok in
      let (lines, charts) = ask_series p r.family now window step prom_ok memory.charts in
      let sampled = r.reachable && not r.no_metrics in
      (
        record {
          is_ok = sampled || prom_ok;
          reachable = sampled;
          no_metrics = r.no_metrics;
          model = r.model;
          at = now;
          sources =
              record { name = "engine"; is_ok = sampled }
              ∷ record { name = "prometheus"; is_ok = prom_ok }
              ∷ [];
          items =
              gauges rl pr r.sums r.family gauge_items
              ++ asked.items
              ++ recent_items rl pr steps
              ++ single_stream_item rl pr sampler.samples ∷ [];
          series = lines;
          note = note r.reachable r.no_metrics prom_ok r.model;
        },
        record memory { charts = charts; sampler = sampler },
      )

  unfoldable pub kept_for : ℕ → ℕ → List Kept → Option Document
  kept_for window step [] = none
  kept_for window step (k ∷ ks) =
      let rest = kept_for window step ks in
      if (k.window =ℕ= window) && (k.step =ℕ= step) then some k.document else rest

  unfoldable pub keep : ℕ → ℕ → Document → List Kept → List Kept
  keep window step d [] = record { window = window; step = step; document = d } ∷ []
  keep window step d (k ∷ ks) =
      let rest = keep window step d ks in
      if (k.window =ℕ= window) && (k.step =ℕ= step)
      then record { window = window; step = step; document = d } ∷ ks
      else k ∷ rest

  -- A kept document that is younger than 15 seconds
  unfoldable pub young : ℕ → Option Document → Option Document
  young now none = none
  young now (some d) = if ltb now (d.at + cache_s) then some d else none

  unfoldable pub remember : ℕ → ℕ → Document × Memory → Document × Memory
  unfolding keep
  remember window step (d, memory) =
      (d, record memory { documents = keep window step d memory.documents })

  unfoldable pub answer : Option Document → Memory → Document × Memory → Document × Memory
  answer (some d) memory made = (d, memory)
  answer none memory made = made

  unfoldable pub block : Prometheus rl → EngineAnswers → ℕ → ℕ → ℕ → Memory → Document × Memory
  unfolding kept_for young read_engine assemble remember answer openai_model
  block p engine now window step memory =
      answer (young now (kept_for window step memory.documents)) memory (
        remember window step (
          assemble p (read_engine engine.metrics (openai_model engine.served)) now window step
            memory))
