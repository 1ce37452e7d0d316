-- ===== src/History/Types.antt =====
-- group_eval_types of history_collector.py.
pub mod All
use runboard_lcp.Base.{
  String, Bool, true, false, not, ◌&&◌, Option, none, some, List, [], ◌∷◌, ◌++◌, ◌==◌, length, leb,
  if◌then◌else◌,
}
use runboard_lcp.Base.Try.{Try, ok, ◌>>=◌}
use runboard_lcp.Core.JobId.{Texts}
use runboard_lcp.History.Rates.{Statistics, EvalFamily, RowRates}
use runboard_lcp.History.Runs.{Run, Grade}
use runboard_lcp.Json.{Json, null}
use runboard_lcp.Metrics.Reals.{Reals}
use runboard_lcp.Throughput.Compute.{as_number}

module _ (rl : Reals) (st : Statistics rl) (t : Texts rl.R) where
  open rl use {R}

  -- A run's result for one eval type; an accuracy that is no number fails in the sort.
  pub record Quant : Type 0 where
    pub quant : String
    pub engine : String
    pub run_id : String
    pub correct : Option (Json R)
    pub graded : Option (Json R)
    pub accuracy : Option R
    pub rates : RowRates rl

  pub record EvalType : Type 0 where
    pub id : String
    pub kind : String
    pub model : String
    pub quants : List Quant
    pub best : Option Quant

  unfoldable pub grade_for : String → List (Grade rl st t) → Option (Grade rl st t)
  grade_for family [] = none
  grade_for family (g ∷ gs) =
      let rest = grade_for family gs in if g.family == family then some g else rest

  unfoldable pub accuracy_of : Option (Json R) → Try (Option R)
  unfolding as_number
  accuracy_of none = ok none
  accuracy_of (some null) = ok none
  accuracy_of (some v) = do x ← as_number rl v; ok (some x)

  abbrev pub take : {A : Type 0} → (Grade rl st t → Option A) → Option (Grade rl st t) → Option A
  take f none = none
  take f (some g) = f g

  unfoldable pub quant_with :
      Run rl st t → EvalFamily rl st → Option (Grade rl st t) → Option R → Quant
  quant_with r d q accuracy = record {
    quant = r.quant;
    engine = r.engine;
    run_id = r.run_id;
    correct = take (λ g. g.correct) q;
    graded = take (λ g. g.graded) q;
    accuracy = accuracy;
    rates = d.rates;
  }

  unfoldable pub quant_of : Run rl st t → EvalFamily rl st → Try Quant
  unfolding grade_for accuracy_of quant_with
  quant_of r d =
      let q = grade_for d.id r.grades in
      accuracy_of (take (λ g. g.accuracy_pct) q) >>= λ accuracy. ok (quant_with r d q accuracy)

  -- `groups.setdefault(…)` and the `append` behind it
  unfoldable pub add_quant : Run rl st t → EvalFamily rl st → Quant → List EvalType → List EvalType
  add_quant r d q [] =
      record { id = d.id; kind = d.kind; model = r.model; quants = q ∷ []; best = none } ∷ []
  add_quant r d q (g ∷ gs) =
      let rest = add_quant r d q gs in
      if g.id == d.id then record g { quants = g.quants ++ q ∷ [] } ∷ gs else g ∷ rest

  unfoldable pub add_families :
      Run rl st t → List (EvalFamily rl st) → List EvalType → Try (List EvalType)
  unfolding quant_of add_quant
  add_families r [] gs = ok gs
  add_families r (d ∷ ds) gs = quant_of r d >>= λ q. add_families r ds (add_quant r d q gs)

  unfoldable pub add_runs : List (Run rl st t) → List EvalType → Try (List EvalType)
  unfolding add_families
  add_runs [] gs = ok gs
  add_runs (r ∷ rs) gs = add_families r r.by_eval_type gs >>= λ more. add_runs rs more

  abbrev or_zero : Option R → R
  or_zero none = rl.zero
  or_zero (some x) = x

  abbrev is_none : Option R → Bool
  is_none none = true
  is_none (some x) = false

  -- The order of the sort key: an accuracy first, the higher accuracy first, the higher rate first.
  module _ (less : R → R → Bool) where
    unfoldable pub comes_first : Quant → Quant → Bool
    comes_first a b =
        if not (is_none a.accuracy) && is_none b.accuracy
        then true
        else if is_none a.accuracy && not (is_none b.accuracy)
        then false
        else if less (or_zero b.accuracy) (or_zero a.accuracy)
        then true
        else if less (or_zero a.accuracy) (or_zero b.accuracy)
        then false
        else not (less a.rates.mean b.rates.mean)

    unfoldable pub insert_quant : Quant → List Quant → List Quant
    unfolding comes_first
    insert_quant a [] = a ∷ []
    insert_quant a (b ∷ bs) =
        let rest = insert_quant a bs in if comes_first a b then a ∷ b ∷ bs else b ∷ rest

    unfoldable pub sort_quants : List Quant → List Quant
    unfolding insert_quant
    sort_quants [] = []
    sort_quants (a ∷ as') = insert_quant a (sort_quants as')

    -- `scored[0] if scored else None`
    unfoldable pub first_scored : List Quant → Option Quant
    first_scored [] = none
    first_scored (q ∷ qs) =
        let rest = first_scored qs in if is_none q.accuracy then rest else some q

    unfoldable pub finished : List EvalType → List EvalType
    unfolding sort_quants first_scored
    finished [] = []
    finished (g ∷ gs) =
        let sorted = sort_quants g.quants in
        record g { quants = sorted; best = first_scored sorted } ∷ finished gs

    unfoldable pub insert_type : EvalType → List EvalType → List EvalType
    insert_type a [] = a ∷ []
    insert_type a (b ∷ bs) =
        let rest = insert_type a bs in
        if leb (length b.quants) (length a.quants) then a ∷ b ∷ bs else b ∷ rest

    unfoldable pub sort_types : List EvalType → List EvalType
    unfolding insert_type
    sort_types [] = []
    sort_types (g ∷ gs) = insert_type g (sort_types gs)

    -- group_eval_types
    unfoldable pub group_eval_types : List (Run rl st t) → Try (List EvalType)
    unfolding add_runs finished sort_types
    group_eval_types runs = add_runs runs [] >>= λ gs. ok (sort_types (finished gs))
