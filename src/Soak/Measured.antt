-- ===== src/Soak/Measured.antt =====
-- The results of the phases of load_soak.py, and what main returns.
use runboard_lcp.Base.{
  ℕ, suc, ◌+◌, ◌<◌, ◌≡◌, ◌∙◌, refl, sym, ap, inl, inr, ◌↔◌, true, Bool-cases, some, List, [], ◌∷◌,
  ◌++◌, map, length, take, get_elem?, length-append, take-get_elem?, take-length, map-snoc, String,
  arith,
}
use runboard_lcp.Metrics.Reals.{Reals}
use runboard_lcp.Soak.Prompts.{LoadPhase}
use runboard_lcp.Soak.Events.{
  Answered, Stage, before, within, marked, closing, Log, log_post, log_round, SoakRun, launched,
  begun, posted, sampled, finished, ended, stamped,
}
use runboard_lcp.Soak.Ledger.{rows, length-rows}
use runboard_lcp.Soak.Ledger.Steps.{SoakRun-Ledger}
use runboard_lcp.Soak.Phases.{
  launch, begin_phase, mark_done, end_phase, result_of, stamp, bad_phases, exit_code, end_run,
  summary_of, is_nil,
}
use runboard_lcp.Soak.State.{PhaseResult, Soak, Shape, Served, write_state}
use runboard_lcp.Soak.Telemetry.{
  Figures, Gauges, Live, two_rates, no_mean, live_rates, sample, note_round,
}
use runboard_lcp.Soak.Worker.{Posted, answered, failed, turn, note_served, note_failed}

module _ (rl : Reals) where
  -- A phase that measured something: a request was answered, and no worker raised.
  abbrev pub Measured : PhaseResult rl → Type 0
  Measured r = (0 < r.requests) × (r.worker_error_count ≡ 0)

  abbrev pub AllMeasured : List (PhaseResult rl) → Type 0
  AllMeasured [] = Unit {0}
  AllMeasured (r ∷ rs) = Measured r × AllMeasured rs

  abbrev AllFair : List (PhaseResult rl) → Type 0
  AllFair [] = Unit {0}
  AllFair (r ∷ rs) = (r.is_ok ≡ true ↔ Measured r) × AllFair rs

  AllFair-snoc :
      (rs : List (PhaseResult rl)) (r : PhaseResult rl)
      → AllFair rs
      → (r.is_ok ≡ true ↔ Measured r)
      → AllFair (rs ++ r ∷ [])
  AllFair-snoc [] r h fair = (fair, tt)
  AllFair-snoc (x ∷ rs) r h fair = (h.0, AllFair-snoc rs r h.1 fair)

  unfoldable pub sum_requests : List (PhaseResult rl) → ℕ
  sum_requests [] = 0
  sum_requests (r ∷ rs) = r.requests + sum_requests rs

  sum_requests-snoc :
      (rs : List (PhaseResult rl)) (r : PhaseResult rl)
      → sum_requests (rs ++ r ∷ []) ≡ sum_requests rs + r.requests
  unfolding sum_requests
  sum_requests-snoc [] r = omega arith
  sum_requests-snoc (x ∷ rs) r = omega (arith, sum_requests-snoc rs r)

  module _ (fg : Figures rl) where
    result_of-fair :
        (p : LoadPhase rl) (wall : rl.R) (errors : List String) (window : List (Served rl))
        (errs : ℕ)
        → ((result_of rl fg p wall errors window errs).is_ok ≡ true
            ↔ Measured (result_of rl fg p wall errors window errs))
    unfolding result_of
    result_of-fair p wall [] [] errs = (λ h. absurd (cc h), λ m. absurd (omega (arith, m.0)))
    result_of-fair p wall [] (w ∷ ws) errs = (λ h. (omega arith, refl), λ m. refl)
    result_of-fair p wall (e ∷ es) [] errs = (λ h. absurd (cc h), λ m. absurd (omega (arith, m.0)))
    result_of-fair p wall (e ∷ es) (w ∷ ws) errs =
        (λ h. absurd (cc h), λ m. absurd (omega (arith, m.1)))

    bad_phases-AllMeasured :
        (rs : List (PhaseResult rl))
        → AllFair rs
        → (is_nil (bad_phases rl fg rs) ≡ true ↔ AllMeasured rs)
    unfolding bad_phases
    bad_phases-AllMeasured [] h = (λ e. tt, λ m. refl)
    bad_phases-AllMeasured (r ∷ rs) h =
        let ih = bad_phases-AllMeasured rs h.1 in
        elim (Bool-cases r.is_ok) [
          | inl good ↦ rw good (λ e. (h.0.0 good, ih.0 e), λ m. ih.1 m.1)
          | inr bad ↦ rw bad (
            λ e. absurd (cc e),
            λ m. absurd (let good : r.is_ok ≡ true = h.0.1 m.0 in cc (good, bad)),
          )
        ]

    exit_code-AllMeasured :
        (s : Soak rl)
        → AllFair s.phase_results
        → (exit_code rl fg s ≡ 0 ↔ AllMeasured s.phase_results)
    unfolding exit_code
    exit_code-AllMeasured s h =
        let fair = bad_phases-AllMeasured s.phase_results h in
        elim (Bool-cases (is_nil (bad_phases rl fg s.phase_results))) [
          | inl none_bad ↦ rw none_bad (λ e. fair.0 none_bad, λ m. refl)
          | inr bad ↦
              rw bad (λ e. absurd (omega (arith, e)), λ m. absurd (let e = fair.1 m in cc (e, bad)))
        ]

    abbrev ended_at : Stage rl fg → ℕ
    ended_at (before idx) = idx
    ended_at (within idx p) = idx
    ended_at (marked idx p) = idx
    ended_at (closing idx) = suc idx

    -- The answers of the phases that have ended
    abbrev counted : Stage rl fg → (earlier current : List (Answered rl fg)) → ℕ
    counted (within idx p) earlier current = length earlier
    counted (marked idx p) earlier current = length earlier
    counted g earlier current = length (earlier ++ current)

    abbrev InPhase : List (LoadPhase rl) → Stage rl fg → Type 0
    InPhase phases (within idx p) = get_elem? phases idx ≡ some p
    InPhase phases (marked idx p) = get_elem? phases idx ≡ some p
    InPhase phases g = Unit {0}

    module _ (phases : List (LoadPhase rl)) where
      record Reported (g : Stage rl fg) (earlier current : List (Answered rl fg))
          (results : List (PhaseResult rl)) : Type 0 where
        names : map (λ r. r.phase) results ≡ map (λ p. p.name) (take (ended_at g) phases)
        phase : InPhase phases g
        sums : sum_requests results ≡ counted g earlier current
        fair : AllFair results

      abbrev ReportedOf : Stage rl fg → Log rl fg → Soak rl → Type 0
      ReportedOf g log s = Reported g log.earlier log.current s.phase_results

      note_round-Reported :
          (g : Stage rl fg) (log : Log rl fg) (s : Soak rl) (now : rl.R) (reading : Gauges rl)
          (live : Live rl fg)
          → ReportedOf g log s
          → ReportedOf g (log_round rl fg live log) (note_round rl fg now reading live s)
      unfolding note_round write_state
      note_round-Reported g log s now reading (two_rates agg stream) h = h
      note_round-Reported g log s now reading (no_mean agg) h = h

      turn-Reported :
          (idx : ℕ) (p : LoadPhase rl) (log : Log rl fg) (s : Soak rl) (shape : Shape) (now : rl.R)
          (r : Posted rl)
          → ReportedOf (within idx p) log s
          → ReportedOf (within idx p) (log_post rl fg shape now r log) (turn rl shape now r s)
      unfolding turn note_served note_failed
      turn-Reported idx p log s shape now (answered pt ct el fr rate) h = record {
        names = h.names;
        phase = h.phase;
        sums = h.sums;
        fair = h.fair;
      }
      turn-Reported idx p log s shape now (failed error el) h = h

      end_phase-Reported :
          (idx : ℕ) (p : LoadPhase rl) (log : Log rl fg) (s : Soak rl) (wall : rl.R)
          (errors : List String)
          → s.window ≡ rows rl fg log.current
          → ReportedOf (marked idx p) log s
          → ReportedOf (closing idx) log (end_phase rl fg idx p wall errors s)
      unfolding end_phase write_state
      end_phase-Reported idx p log s wall errors window h =
          let res = result_of rl fg p wall errors s.window s.errs in
          record {
            names =
                map-snoc (λ r. r.phase) s.phase_results res
                ∙ rw (take-get_elem? idx phases p h.phase) (
                    ap (λ ns. ns ++ p.name ∷ []) h.names
                    ∙ sym (map-snoc (λ q. q.name) (take idx phases) p));
            phase = tt;
            sums =
                sum_requests-snoc s.phase_results res
                ∙ omega (
                  arith,
                  h.sums,
                  length-append log.earlier log.current,
                  ap length window,
                  length-rows rl fg log.current,
                );
            fair =
                AllFair-snoc s.phase_results res h.fair
                  (result_of-fair p wall errors s.window s.errs);
          }

      SoakRun-Reported :
          {g : Stage rl fg} {log : Log rl fg} {s : Soak rl}
          → SoakRun rl fg phases g log s
          → ReportedOf g log s
      unfolding launch begin_phase mark_done stamp sample sum_requests
      SoakRun-Reported launched = record { names = refl; phase = tt; sums = refl; fair = tt }
      SoakRun-Reported (begun run p e) =
          let h = SoakRun-Reported run in
          record { names = h.names; phase = e; sums = h.sums; fair = h.fair }
      SoakRun-Reported (posted {idx} {p} {log} {s} run shape now r) =
          turn-Reported idx p log s shape now r (SoakRun-Reported run)
      SoakRun-Reported (sampled {g} {log} {s} run now reading) =
          note_round-Reported g log s now reading (live_rates rl fg now s.recent)
            (SoakRun-Reported run)
      SoakRun-Reported (finished run) =
          let h = SoakRun-Reported run in
          record { names = h.names; phase = h.phase; sums = h.sums; fair = h.fair }
      SoakRun-Reported (ended {idx} {p} {log} {s} run wall errors) =
          end_phase-Reported idx p log s wall errors (SoakRun-Ledger rl fg phases run).window
            (SoakRun-Reported run)
      SoakRun-Reported (stamped run now) =
          let h = SoakRun-Reported run in
          record { names = h.names; phase = tt; sums = h.sums; fair = h.fair }

      -- Once the last phase has ended, the results that main writes are those of the phases, in
      -- order, their requests add up to those of the totals, main returns 0 exactly when in each
      -- phase a request was answered and no worker raised, and the state that is published last
      -- has the phase DONE.
      pub end_run-Measured :
          {log : Log rl fg} {s : Soak rl}
          → SoakRun rl fg phases (before (length phases)) log s
          → (map (λ r. r.phase) (end_run rl fg s).1.phases ≡ map (λ p. p.name) phases)
            × (sum_requests (end_run rl fg s).1.phases ≡ (end_run rl fg s).1.totals.requests)
            × ((end_run rl fg s).0 ≡ 0 ↔ AllMeasured (end_run rl fg s).1.phases)
            × ((end_run rl fg s).2.published ≡ some (record s.state { phase = some "DONE" }))
      unfolding end_run summary_of exit_code write_state
      end_run-Measured {log} {s} run =
          let h = SoakRun-Reported run in
          (
            h.names ∙ ap (λ ps. map (λ (p : LoadPhase rl). p.name) ps) (take-length phases),
            h.sums ∙ sym (SoakRun-Ledger rl fg phases run).tells.requests,
            exit_code-AllMeasured s h.fair,
            refl,
          )
