-- ===== src/Soak/Agrees.antt =====
-- The live rate of load_soak.py and the one that corrected_metrics.py computes from the rows of the run.
use runboard_lcp.Base.{
  none, ◌≤◌, ◌≡◌, ◌≢◌, ◌∙◌, refl, sym, ap, Bool, true, false, Bool-cases, inl, inr, Option, some,
  List, [], ◌∷◌, length, last_n-short, arith, if◌then◌else◌,
}
use runboard_lcp.Base.Try.{ok}
use runboard_lcp.Corrected.{Digits, number_at, tokens_since, sum_since, rolling_aggregate}
use runboard_lcp.Json.{Json, obj, lookup}
use runboard_lcp.Metrics.Reals.{Reals}
use runboard_lcp.Soak.Events.{Log, Stage, SoakRun, all_answers}
use runboard_lcp.Soak.Ledger.{rows, length-rows}
use runboard_lcp.Soak.Ledger.Steps.{SoakRun-Ledger}
use runboard_lcp.Soak.Prompts.{LoadPhase}
use runboard_lcp.Soak.State.{Served, Soak, recent_max, push, write_state}
use runboard_lcp.Soak.Telemetry.{
  Figures, Gauges, Live, two_rates, no_mean, in_window, live_of, live_of_rates, live_rates,
  live_window, note_round, push_live, sample, stream_rates, window_tokens,
}
use runboard_lcp.Soak.Worker.Logged.{RowContext, logged_row}
use runboard_lcp.Throughput.Compute.{as_number}

if_ok {ℓ} :
    {A : Type ℓ} (b : Bool) (x : A)
    → ok (if b then none else some x) ≡ (if b then ok none else ok (some x))
if_ok true x = refl
if_ok false x = refl

module _ (rl : Reals) (dg : Digits rl) where
  open rl use {R}

  -- The rows are those that were written for these answers, in order.
  abbrev pub AllLogged : List (Json R) → List (Served rl) → Type 0
  AllLogged [] [] = Unit {0}
  AllLogged (v ∷ vs) (r ∷ rs) =
      ((c : RowContext rl) × (v ≡ obj (logged_row rl c r))) × AllLogged vs rs
  AllLogged vs rs = ⊥

  tokens_since-logged :
      (now : R) (c : RowContext rl) (r : Served rl)
      → tokens_since rl dg now (obj (logged_row rl c r))
        ≡ ok (if rl.is_pos (rl.sub (rl.sub now r.at) (live_window rl)) then none else some r.tokens)
  unfolding tokens_since number_at lookup as_number logged_row
  tokens_since-logged now c r =
      sym (if_ok (rl.is_pos (rl.sub (rl.sub now r.at) (live_window rl))) r.tokens)

  sum_since-logged :
      (now t : R) (vs : List (Json R)) (rs : List (Served rl))
      → AllLogged vs rs
      → sum_since rl dg now t vs ≡ ok (window_tokens rl t (in_window rl now (live_window rl) rs))
  unfolding sum_since window_tokens in_window
  sum_since-logged now t [] [] h = refl
  sum_since-logged now t [] (r ∷ rs) h = absurd h
  sum_since-logged now t (v ∷ vs) [] h = absurd h
  sum_since-logged now t (v ∷ vs) (r ∷ rs) h =
      let late = rl.is_pos (rl.sub (rl.sub now r.at) (live_window rl)) in
      rw (h.0.1, tokens_since-logged now h.0.0 r)
        (elim (Bool-cases late) [
          | inl old ↦ rw old (sum_since-logged now t vs rs h.1)
          | inr new ↦ rw new (sum_since-logged now (rl.add t r.tokens) vs rs h.1)
        ])

  module _ (fg : Figures rl) (same_rounding : (x : R) → fg.round2 x ≡ dg.round_to 2 x) where
    live_agg : Live rl fg → Option R
    live_agg (two_rates agg stream) = agg
    live_agg (no_mean agg) = some agg

    note_round-live_agg :
        (now : R) (g : Gauges rl) (live : Live rl fg) (s : Soak rl)
        → (note_round rl fg now g live s).state.live_agg_tps ≡ live_agg live
    unfolding note_round push_live push write_state live_agg
    note_round-live_agg now g (two_rates agg stream) s = refl
    note_round-live_agg now g (no_mean agg) s = refl

    live_agg-rates : (agg : R) (xs : List R) → live_agg (live_of_rates rl fg agg xs) ≡ some agg
    unfolding live_agg
    live_agg-rates agg [] = refl
    live_agg-rates agg (x ∷ xs) = refl

    live_agg-live_of :
        (win : R) (rs : List (Served rl))
        → rs ≢ []
        → live_agg (live_of rl fg win rs)
          ≡ some (fg.round2 (rl.div (window_tokens rl rl.zero rs) win))
    unfolding live_of
    live_agg-live_of win [] h = absurd (h refl)
    live_agg-live_of win (r ∷ rs) h = live_agg-rates _ (stream_rates rl (r ∷ rs))

    rolling_aggregate-logged :
        (now : R) (vs : List (Json R)) (rs : List (Served rl))
        → AllLogged vs rs
        → in_window rl now (live_window rl) rs ≢ []
        → rolling_aggregate rl dg now vs
          ≡ ok (
              some (
                fg.round2 (
                  rl.div
                    (window_tokens rl rl.zero (in_window rl now (live_window rl) rs))
                    (live_window rl))))
    unfolding rolling_aggregate in_window
    rolling_aggregate-logged now [] [] h some_in = absurd (some_in refl)
    rolling_aggregate-logged now [] (r ∷ rs) h some_in = absurd h
    rolling_aggregate-logged now (v ∷ vs) rs h some_in =
        rw (sum_since-logged now rl.zero (v ∷ vs) rs h, same_rounding _)

    -- While a run has no more than 800 answers, of which one came in within the last minute, the
    -- live rate that a round of the telemetry thread sets is the one that rolling_aggregate of
    -- corrected_metrics.py computes at the same time from the rows that the workers wrote for
    -- these answers, in order, where both round alike.
    pub sample-rolling_aggregate :
        (phases : List (LoadPhase rl)) {g : Stage rl fg} {log : Log rl fg} {s : Soak rl} (now : R)
        (gauges : Gauges rl) (file : List (Json R))
        → SoakRun rl fg phases g log s
        → length (all_answers rl fg log) ≤ recent_max
        → AllLogged file (rows rl fg (all_answers rl fg log))
        → in_window rl now (live_window rl) s.recent ≢ []
        → rolling_aggregate rl dg now file ≡ ok (sample rl fg now gauges s).state.live_agg_tps
    unfolding sample live_rates
    sample-rolling_aggregate phases {log = log} {s} now gauges file run few logged some_in =
        let all = rows rl fg (all_answers rl fg log) in
        let whole : s.recent ≡ all =
          (SoakRun-Ledger rl fg phases run).tells.recent
          ∙ last_n-short recent_max all
              (omega (arith, length-rows rl fg (all_answers rl fg log), few)) in
        rolling_aggregate-logged now file s.recent (rw whole logged) some_in
        ∙ ap (λ o. ok o)
            (sym (
              note_round-live_agg now gauges (live_rates rl fg now s.recent) s
              ∙ live_agg-live_of (live_window rl) (in_window rl now (live_window rl) s.recent)
                  some_in))
