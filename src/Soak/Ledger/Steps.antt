-- ===== src/Soak/Ledger/Steps.antt =====
-- The ledger over the runs of load_soak.py.
use runboard_lcp.Base.{
  ℕ, suc, ◌≡◌, refl, sym, ap, ◌∙◌, Bool-cases, Option, List, [], ◌∷◌, ◌++◌, last_n, length-append,
  arith, inl, inr,
}
use runboard_lcp.Metrics.Reals.{Reals}
use runboard_lcp.Soak.Prompts.{LoadPhase}
use runboard_lcp.Soak.Events.{
  Answered, answer_of, Stage, Log, log_begin, log_post, log_round, SoakRun, launched, begun, posted,
  sampled, finished, ended, stamped,
}
use runboard_lcp.Soak.Phases.{launch, first_state, begin_phase, mark_done, end_phase, stamp}
use runboard_lcp.Soak.State.{Shape, Tally, Soak, push, write_state, recent_max}
use runboard_lcp.Soak.State.Capped.{append_capped-keeps_last}
use runboard_lcp.Soak.Telemetry.{
  Figures, Gauges, Live, two_rates, no_mean, live_rates, sample, note_round, push_reading,
  push_live, window_tokens, window_elapsed,
}
use runboard_lcp.Soak.Worker.{
  Posted, answered, failed, turn, note_served, note_failed, add_to_shape, add_to_totals, same_shape,
}
use mathlib.Core.List.{append-nil, append_assoc}
use mathlib.Core.Path.{subst}
use runboard_lcp.Soak.Ledger.{
  rows, rows_of_shape, tally_of, window_tokens-snoc, window_elapsed-snoc, tally_of-snoc, rows-snoc,
  rows_of_shape-snoc, Tells, Ledger, LedgerOf,
}

module _ (rl : Reals) (fg : Figures rl) where
  open rl use {R}

  add_to_shape-tally_of :
      (k : Shape) (all : List (Answered rl fg)) (a : Answered rl fg)
      (shapes : Shape → Option (Tally rl))
      → shapes k ≡ tally_of rl (rows_of_shape rl fg k all)
      → add_to_shape rl a.shape a.row shapes k ≡ tally_of rl (rows_of_shape rl fg k (all ++ a ∷ []))
  unfolding add_to_shape
  add_to_shape-tally_of k all a shapes h = elim (Bool-cases (same_shape a.shape k)) [
    | inl same ↦
        rw (rows_of_shape-snoc rl fg k all a, same, h)
          (sym (tally_of-snoc rl (rows_of_shape rl fg k all) a.row))
    | inr other ↦ rw (rows_of_shape-snoc rl fg k all a, other) h
  ]

  note_served-Tells :
      (all : List (Answered rl fg)) (n : ℕ) (s : Soak rl) (a : Answered rl fg)
      → Tells rl fg all n s
      → Tells rl fg (all ++ a ∷ []) n (note_served rl a.shape a.row s)
  unfolding note_served add_to_totals
  note_served-Tells all n s a h = record {
    requests = omega (arith, length-append all (a ∷ []), h.requests);
    errors = h.errors;
    tokens =
        rw (rows-snoc rl fg all a, window_tokens-snoc rl rl.zero (rows rl fg all) a.row, h.tokens);
    elapsed =
        rw
          (rows-snoc rl fg all a, window_elapsed-snoc rl rl.zero (rows rl fg all) a.row, h.elapsed);
    shapes = λ k. add_to_shape-tally_of k all a s.state.shapes (h.shapes k);
    recent =
        append_capped-keeps_last recent_max a.row (rows rl fg all) s.recent h.recent
        ∙ ap (last_n recent_max) (sym (rows-snoc rl fg all a));
  }

  note_failed-Tells :
      (all : List (Answered rl fg)) (n : ℕ) (s : Soak rl)
      → Tells rl fg all n s
      → Tells rl fg all (suc n) (note_failed rl s)
  unfolding note_failed
  note_failed-Tells all n s h = record {
    requests = h.requests;
    errors = omega (arith, h.errors);
    tokens = h.tokens;
    elapsed = h.elapsed;
    shapes = h.shapes;
    recent = h.recent;
  }

  turn-Ledger :
      (log : Log rl fg) (s : Soak rl) (shape : Shape) (now : R) (r : Posted rl)
      → LedgerOf rl fg log s
      → LedgerOf rl fg (log_post rl fg shape now r log) (turn rl shape now r s)
  unfolding turn note_served note_failed
  turn-Ledger log s shape now (answered pt ct el fr rate) h =
      let a = answer_of rl fg shape now ct el in
      record {
        tells =
            subst (λ all. Tells rl fg all log.failures (note_served rl shape a.row s))
              (append_assoc log.earlier log.current (a ∷ []))
              (note_served-Tells (log.earlier ++ log.current) log.failures s a h.tells);
        window = rw (rows-snoc rl fg log.current a, h.window);
      }
  turn-Ledger log s shape now (failed error el) h = record {
    tells = note_failed-Tells (log.earlier ++ log.current) log.failures s h.tells;
    window = h.window;
  }

  begin_phase-Ledger :
      (log : Log rl fg) (s : Soak rl) (idx : ℕ) (p : LoadPhase rl)
      → LedgerOf rl fg log s
      → LedgerOf rl fg (log_begin rl fg log) (begin_phase rl fg idx p s)
  unfolding begin_phase rows
  begin_phase-Ledger log s idx p h = record {
    tells =
        subst (λ all. Tells rl fg all log.failures (begin_phase rl fg idx p s))
          (sym (append-nil (log.earlier ++ log.current)))
          (record {
            requests = h.tells.requests;
            errors = h.tells.errors;
            tokens = h.tells.tokens;
            elapsed = h.tells.elapsed;
            shapes = h.tells.shapes;
            recent = h.tells.recent;
          });
    window = refl;
  }

  -- A state with the same totals, shapes and windows tells the same.
  same-Ledger :
      (earlier current : List (Answered rl fg)) (failures : ℕ) (s t : Soak rl)
      → t.state.totals ≡ s.state.totals
      → t.state.shapes ≡ s.state.shapes
      → t.window ≡ s.window
      → t.recent ≡ s.recent
      → Ledger rl fg earlier current failures s
      → Ledger rl fg earlier current failures t
  same-Ledger earlier current failures s t totals shapes window recent h = record {
    tells = record {
      requests = ap (λ x. x.requests) totals ∙ h.tells.requests;
      errors = ap (λ x. x.errors) totals ∙ h.tells.errors;
      tokens = ap (λ x. x.completion_tokens) totals ∙ h.tells.tokens;
      elapsed = ap (λ x. x.elapsed) totals ∙ h.tells.elapsed;
      shapes = λ k. ap (λ x. x k) shapes ∙ h.tells.shapes k;
      recent = recent ∙ h.tells.recent;
    };
    window = window ∙ h.window;
  }

  note_round-Ledger :
      (log : Log rl fg) (s : Soak rl) (now : R) (reading : Gauges rl) (live : Live rl fg)
      → LedgerOf rl fg log s
      → LedgerOf rl fg (log_round rl fg live log) (note_round rl fg now reading live s)
  unfolding note_round push_reading push_live push write_state
  note_round-Ledger log s now reading (two_rates agg stream) h =
      same-Ledger log.earlier log.current log.failures s _ refl refl refl refl h
  note_round-Ledger log s now reading (no_mean agg) h =
      same-Ledger log.earlier log.current log.failures s _ refl refl refl refl h

  -- Through every interleaving of the main thread, the workers and the telemetry thread, what the
  -- soak keeps is a function of the answers that came in, in their order: the requests, tokens
  -- and seconds of the totals are the number and the sums over all of them and the errors count
  -- the failures; each shape has the tally of its own answers, and none where it has none; the
  -- window of the phase holds the answers since the phase began; and the rolling window holds the
  -- last 800 of the run.
  pub SoakRun-Ledger :
      (phases : List (LoadPhase rl)) {g : Stage rl fg} {log : Log rl fg} {s : Soak rl}
      → SoakRun rl fg phases g log s
      → LedgerOf rl fg log s
  unfolding launch first_state mark_done end_phase stamp sample write_state push rows rows_of_shape
      tally_of window_tokens window_elapsed
  SoakRun-Ledger phases launched = record {
    tells = record {
      requests = refl;
      errors = refl;
      tokens = refl;
      elapsed = refl;
      shapes = λ k. refl;
      recent = refl;
    };
    window = refl;
  }
  SoakRun-Ledger phases (begun {idx} {log} {s} run p e) =
      begin_phase-Ledger log s idx p (SoakRun-Ledger phases run)
  SoakRun-Ledger phases (posted {log = log} {s = s} run shape now r) =
      turn-Ledger log s shape now r (SoakRun-Ledger phases run)
  SoakRun-Ledger phases (sampled {log = log} {s = s} run now reading) =
      note_round-Ledger log s now reading (live_rates rl fg now s.recent)
        (SoakRun-Ledger phases run)
  SoakRun-Ledger phases (finished {log = log} {s = s} run) =
      same-Ledger log.earlier log.current log.failures s _ refl refl refl refl
        (SoakRun-Ledger phases run)
  SoakRun-Ledger phases (ended {log = log} {s = s} run wall worker_errors) =
      same-Ledger log.earlier log.current log.failures s _ refl refl refl refl
        (SoakRun-Ledger phases run)
  SoakRun-Ledger phases (stamped {log = log} {s = s} run now) =
      same-Ledger log.earlier log.current log.failures s _ refl refl refl refl
        (SoakRun-Ledger phases run)
