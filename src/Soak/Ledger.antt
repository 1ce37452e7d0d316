-- ===== src/Soak/Ledger.antt =====
-- The totals, the shapes and the two windows of load_soak.py against the answers that came in.
pub mod Steps
use runboard_lcp.Base.{
  ℕ, zero, suc, ◌+◌, ◌≡◌, refl, sym, ap, ◌∙◌, true, false, Bool-cases, Option, none, some, List, [],
  ◌∷◌, ◌++◌, map, length, last_n, length-append, arith, inl, inr, if◌then◌else◌,
}
use runboard_lcp.Metrics.Reals.{Reals}
use runboard_lcp.Soak.Prompts.{LoadPhase}
use runboard_lcp.Soak.Events.{
  Answered, answer_of, Stage, Log, no_log, all_answers, log_begin, log_post, log_round, log_stamp,
  SoakRun, launched, begun, posted, sampled, ended, stamped,
}
use runboard_lcp.Soak.Phases.{launch, first_state, begin_phase, end_phase, stamp}
use runboard_lcp.Soak.State.{
  Shape, chat_short, code_gen, doc_summary, tool_call, deep_reason, Served, Tally, Soak, push,
  write_state, recent_max,
}
use runboard_lcp.Soak.State.Capped.{append_capped-keeps_last}
use runboard_lcp.Soak.Telemetry.{
  Figures, Gauges, Live, two_rates, no_mean, live_rates, sample, note_round, push_reading,
  push_live, window_tokens, window_elapsed,
}
use runboard_lcp.Soak.Worker.{
  Posted, answered, failed, turn, note_served, note_failed, add_to_shape, add_to_totals, same_shape,
  tally, or_new,
}
use mathlib.Core.List.{append-nil, append_assoc}
use mathlib.Core.Path.{subst}

module _ (rl : Reals) where
  open rl use {R}

  module _ (fg : Figures rl) where
    unfoldable pub rows : List (Answered rl fg) → List (Served rl)
    rows [] = []
    rows (a ∷ as') = a.row ∷ rows as'

    -- The answers to requests of one shape
    unfoldable pub rows_of_shape : Shape → List (Answered rl fg) → List (Served rl)
    rows_of_shape k [] = []
    rows_of_shape k (a ∷ as') =
        let rest = rows_of_shape k as' in if same_shape a.shape k then a.row ∷ rest else rest

  -- What a tally of some answers is: none where there are none.
  unfoldable pub tally_of : List (Served rl) → Option (Tally rl)
  unfolding window_tokens window_elapsed
  tally_of [] = none
  tally_of (r ∷ rs) = some (record {
    n = length (r ∷ rs);
    tokens = window_tokens rl rl.zero (r ∷ rs);
    elapsed = window_elapsed rl rl.zero (r ∷ rs);
  })

  pub window_tokens-snoc :
      (t : R) (rs : List (Served rl)) (r : Served rl)
      → window_tokens rl t (rs ++ r ∷ []) ≡ rl.add (window_tokens rl t rs) r.tokens
  unfolding window_tokens
  window_tokens-snoc t [] r = refl
  window_tokens-snoc t (x ∷ rs) r = window_tokens-snoc (rl.add t x.tokens) rs r

  pub window_elapsed-snoc :
      (t : R) (rs : List (Served rl)) (r : Served rl)
      → window_elapsed rl t (rs ++ r ∷ []) ≡ rl.add (window_elapsed rl t rs) r.elapsed
  unfolding window_elapsed
  window_elapsed-snoc t [] r = refl
  window_elapsed-snoc t (x ∷ rs) r = window_elapsed-snoc (rl.add t x.elapsed) rs r

  pub tally_of-snoc :
      (rs : List (Served rl)) (r : Served rl)
      → tally_of (rs ++ r ∷ []) ≡ some (tally rl r (or_new rl (tally_of rs)))
  unfolding tally_of window_tokens window_elapsed
  tally_of-snoc [] r = ground arith
  tally_of-snoc (x ∷ rs) r =
      rw
        (
          window_tokens-snoc (rl.add rl.zero x.tokens) rs r,
          window_elapsed-snoc (rl.add rl.zero x.elapsed) rs r,
        )
        (ground (arith, length-append rs (r ∷ [])))

  module _ (fg : Figures rl) where
    pub length-rows : (as' : List (Answered rl fg)) → length (rows fg as') ≡ length as'
    unfolding rows
    length-rows [] = refl
    length-rows (a ∷ as') = ap (λ n. suc n) (length-rows as')

    pub rows-snoc :
        (as' : List (Answered rl fg)) (a : Answered rl fg)
        → rows fg (as' ++ a ∷ []) ≡ rows fg as' ++ a.row ∷ []
    unfolding rows
    rows-snoc [] a = refl
    rows-snoc (b ∷ as') a = ap (λ rs. b.row ∷ rs) (rows-snoc as' a)

    pub rows_of_shape-snoc :
        (k : Shape) (as' : List (Answered rl fg)) (a : Answered rl fg)
        → rows_of_shape fg k (as' ++ a ∷ []) ≡ (
            if same_shape a.shape k
            then rows_of_shape fg k as' ++ a.row ∷ []
            else rows_of_shape fg k as')
    unfolding rows_of_shape
    rows_of_shape-snoc k [] a = refl
    rows_of_shape-snoc k (b ∷ as') a = ground (arith, rows_of_shape-snoc k as' a)

    -- What the state says of the answers and of the failures so far
    pub record Tells (all : List (Answered rl fg)) (failures : ℕ) (s : Soak rl) : Type 0 where
      pub requests : s.state.totals.requests ≡ length all
      pub errors : s.state.totals.errors ≡ failures
      pub tokens : s.state.totals.completion_tokens ≡ window_tokens rl rl.zero (rows fg all)
      pub elapsed : s.state.totals.elapsed ≡ window_elapsed rl rl.zero (rows fg all)
      pub shapes : (k : Shape) → s.state.shapes k ≡ tally_of (rows_of_shape fg k all)
      pub recent : s.recent ≡ last_n recent_max (rows fg all)

    -- The ledger of a run
    pub record Ledger (earlier current : List (Answered rl fg)) (failures : ℕ) (s : Soak rl)
        : Type 0 where
      pub tells : Tells (earlier ++ current) failures s
      pub window : s.window ≡ rows fg current

    -- The ledger of what a log has
    abbrev pub LedgerOf : Log rl fg → Soak rl → Type 0
    LedgerOf log s = Ledger log.earlier log.current log.failures s
