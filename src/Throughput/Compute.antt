-- ===== src/Throughput/Compute.antt =====
-- compute of run_throughput.py.
use runboard_lcp.Base.{
  ℕ, suc, true, false, Option, none, some, List, [], ◌∷◌, length, map, if◌then◌else◌,
}
use runboard_lcp.Base.Int.{pos}
use runboard_lcp.Base.Try.{Try, ok, raised, type_error, ◌>>=◌}
use runboard_lcp.Json.{Json, bool, int, float, obj, Fields, lookup}
use runboard_lcp.Json.Falsy.{truthy}
use runboard_lcp.Metrics.Reals.{Reals}

module _ (rl : Reals) where
  open rl use {R}

  -- `round2 x` is `round(x, 2)`, `mean` is `statistics.mean`, and `sum` is Python's sum of numbers, which
  -- may round otherwise than a loop that adds one number after the other.
  pub record Rounding : Type 0 where
    pub round2 : R → R
    pub mean : List R → R
    pub sum : List R → R

  -- A value in a comparison with a number or in a sum of numbers.
  unfoldable pub as_number : Json R → Try R
  as_number (int i) = ok (rl.of_int i)
  as_number (float x) = ok x
  as_number (bool true) = ok (rl.of_int (pos 1))
  as_number (bool false) = ok (rl.of_int (pos 0))
  as_number v = raised type_error

  -- The tokens and the seconds of a row that counts.
  pub record GoodRow : Type 0 where
    pub tokens : R
    pub seconds : R

  -- `if ct and el and el > 0`. The sum of the tokens raises on one that is no number.
  unfoldable pub rate_of_pair : Option (Json R) → Option (Json R) → Try (Option GoodRow)
  unfolding as_number
  rate_of_pair (some ct) (some el) = do
    seconds ← as_number el
    if rl.is_pos seconds
        then (do tokens ← as_number ct; ok (some (record { tokens = tokens; seconds = seconds })))
        else ok none
  rate_of_pair ct el = ok none

  unfoldable pub rate_of_row : Fields R → Try (Option GoodRow)
  unfolding rate_of_pair truthy lookup
  rate_of_row d =
      rate_of_pair (truthy rl.is_zero (lookup "completion_tokens" d))
        (truthy rl.is_zero (lookup "elapsed_s" d))

  abbrev add_rate : Option GoodRow → List GoodRow → List GoodRow
  add_rate none good = good
  add_rate (some r) good = r ∷ good

  -- The list `good`.
  unfoldable pub good_rows : List (Json R) → Try (List GoodRow)
  unfolding rate_of_row
  good_rows [] = ok []
  good_rows (obj d ∷ rows) =
      let rest = good_rows rows in do rate ← rate_of_row d; good ← rest; ok (add_rate rate good)
  good_rows (row ∷ rows) = good_rows rows

  abbrev count_if : Option (Json R) → ℕ → ℕ
  count_if none n = n
  count_if (some v) n = suc n

  -- The rows with an error.
  unfoldable pub count_errors : List (Json R) → ℕ
  unfolding truthy lookup
  count_errors [] = 0
  count_errors (obj d ∷ rows) = count_if (truthy rl.is_zero (lookup "error" d)) (count_errors rows)
  count_errors (row ∷ rows) = count_errors rows

  -- A point of the three lists of the chart.
  pub record ChartPoint : Type 0 where
    pub ts : R
    pub agg_tps : R
    pub stream_tps : R

  pub record Throughput : Type 0 where
    pub rows_done : ℕ
    pub errors : ℕ
    pub tokens_total : R
    pub busy_s : R
    pub aggregate_tok_s : Option R
    pub per_stream_tok_s : Option R
    pub series : List ChartPoint

  module _ (rd : Rounding) where
    -- The loop over `good`, with the running totals of the seconds and the tokens.
    unfoldable pub chart : R → R → List GoodRow → List ChartPoint
    chart t tok [] = []
    chart t tok (r ∷ rs) =
        record {
          ts = rd.round2 (rl.add t r.seconds);
          agg_tps = rd.round2 (rl.div (rl.add tok r.tokens) (rl.add t r.seconds));
          stream_tps = rd.round2 (rl.div r.tokens r.seconds);
        }
        ∷ chart (rl.add t r.seconds) (rl.add tok r.tokens) rs

    unfoldable pub of_good : ℕ → ℕ → List GoodRow → Throughput
    unfolding chart
    of_good rows errors [] = record {
      rows_done = rows;
      errors = errors;
      tokens_total = rl.zero;
      busy_s = rl.zero;
      aggregate_tok_s = none;
      per_stream_tok_s = none;
      series = [];
    }
    of_good rows errors (g ∷ gs) =
        let tokens = rd.sum (map (λ r. r.tokens) (g ∷ gs)) in
        let busy = rd.sum (map (λ r. r.seconds) (g ∷ gs)) in
        record {
          rows_done = rows;
          errors = errors;
          tokens_total = tokens;
          busy_s = rd.round2 busy;
          aggregate_tok_s = some (rd.round2 (rl.div tokens busy));
          per_stream_tok_s =
              some (rd.round2 (rd.mean (map (λ r. rl.div r.tokens r.seconds) (g ∷ gs))));
          series = chart rl.zero rl.zero (g ∷ gs);
        }

    unfoldable pub compute : List (Json R) → Try Throughput
    unfolding good_rows count_errors of_good
    compute rows = do good ← good_rows rows; ok (of_good (length rows) (count_errors rows) good)
