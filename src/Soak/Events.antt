-- ===== src/Soak/Events.antt =====
-- The runs of load_soak.py: its main thread, the workers and the telemetry thread in any order.
use runboard_lcp.Base.{ℕ, suc, ◌≡◌, String, some, List, [], ◌∷◌, ◌++◌, get_elem?}
use runboard_lcp.Metrics.Reals.{Reals}
use runboard_lcp.Soak.Prompts.{LoadPhase}
use runboard_lcp.Soak.Phases.{launch, begin_phase, mark_done, end_phase, stamp}
use runboard_lcp.Soak.State.{Shape, Served, Soak}
use runboard_lcp.Soak.Telemetry.{Figures, Gauges, Live, two_rates, no_mean, live_rates, sample}
use runboard_lcp.Soak.Worker.{Posted, answered, failed, turn}

module _ (rl : Reals) (fg : Figures rl) where
  open rl use {R}

  pub record Answered : Type 0 where
    pub shape : Shape
    pub row : Served rl

  -- Where the main thread is: before the phase of an index, in it, past its workers, or between the write of its
  -- and its time stamp.
  pub data Stage : Type 0 where
    before : ℕ → Stage
    within : ℕ → LoadPhase rl → Stage
    marked : ℕ → LoadPhase rl → Stage
    closing : ℕ → Stage

  -- What has happened: the answers of the phases that have begun before this one, and of this one, the
  -- failures, the rounds of the telemetry thread, those among them that did not raise, and the stamps.
  pub record Log : Type 0 where
    pub earlier : List Answered
    pub current : List Answered
    pub failures : ℕ
    pub rounds : ℕ
    pub whole : ℕ
    pub stamps : ℕ

  abbrev pub no_log : Log
  no_log = record { earlier = []; current = []; failures = 0; rounds = 0; whole = 0; stamps = 0 }

  abbrev pub all_answers : Log → List Answered
  all_answers log = log.earlier ++ log.current

  abbrev pub log_begin : Log → Log
  log_begin log = record log { earlier = log.earlier ++ log.current; current = [] }

  abbrev pub answer_of : Shape → R → R → R → Answered
  answer_of shape now ct el = record {
    shape = shape;
    row = record { at = now; tokens = ct; elapsed = el };
  }

  abbrev pub log_post : Shape → R → Posted rl → Log → Log
  log_post shape now (answered pt ct el fr rate) log = record log {
    current = log.current ++ answer_of shape now ct el ∷ [];
  }
  log_post shape now (failed error el) log = record log { failures = suc log.failures }

  abbrev pub log_round : Live rl fg → Log → Log
  log_round (two_rates agg stream) log = record log {
    rounds = suc log.rounds;
    whole = suc log.whole;
  }
  log_round (no_mean agg) log = record log { rounds = suc log.rounds }

  abbrev pub log_stamp : Log → Log
  log_stamp log = record log { stamps = suc log.stamps }

  -- A step is what a worker or the telemetry thread does under the lock, or what the main thread does up
  -- to the next change that another thread can see.
  pub data SoakRun (phases : List (LoadPhase rl)) : Stage → Log → Soak rl → Type 0 where
    launched : SoakRun phases (before 0) no_log (launch rl fg phases)
    begun :
        {idx : ℕ} {log : Log} {s : Soak rl}
        → SoakRun phases (before idx) log s
        → (p : LoadPhase rl) → get_elem? phases idx ≡ some p
        → SoakRun phases (within idx p) (log_begin log) (begin_phase rl fg idx p s)
    posted :
        {idx : ℕ} {p : LoadPhase rl} {log : Log} {s : Soak rl}
        → SoakRun phases (within idx p) log s
        → (shape : Shape) (now : R) (r : Posted rl)
        → SoakRun phases (within idx p) (log_post shape now r log) (turn rl shape now r s)
    sampled :
        {g : Stage} {log : Log} {s : Soak rl}
        → SoakRun phases g log s
        → (now : R) (reading : Gauges rl)
        → SoakRun phases g
            (log_round (live_rates rl fg now s.recent) log)
            (sample rl fg now reading s)
    finished :
        {idx : ℕ} {p : LoadPhase rl} {log : Log} {s : Soak rl}
        → SoakRun phases (within idx p) log s
        → SoakRun phases (marked idx p) log (mark_done rl fg idx s)
    ended :
        {idx : ℕ} {p : LoadPhase rl} {log : Log} {s : Soak rl}
        → SoakRun phases (marked idx p) log s
        → (wall : R) (worker_errors : List String)
        → SoakRun phases (closing idx) log (end_phase rl fg idx p wall worker_errors s)
    stamped :
        {idx : ℕ} {log : Log} {s : Soak rl}
        → SoakRun phases (closing idx) log s
        → (now : R) → SoakRun phases (before (suc idx)) (log_stamp log) (stamp rl fg now s)
