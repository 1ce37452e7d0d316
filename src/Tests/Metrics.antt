-- ===== src/Tests/Metrics.antt =====
-- Numbers to sample, and the theorems on the engine's card at concrete inputs.
use Prim.Native.Nat.{◌<◌}
use runboard_lcp.Base.{
  ◌*◌, ℕ, ◌+◌, ◌-◌, ◌/◌, ◌≡◌, refl, false, Option, none, some, List, [], ◌∷◌, ◌++◌, ltb, ◌=ℕ=◌,
  length, last_n, contains, parse_nat, split_lines, if◌then◌else◌,
}
use runboard_lcp.Base.Int.{ℤ, pos, negsuc}
use runboard_lcp.Base.Assoc.{find_key}
use runboard_lcp.Base.Try.{ok, raised, type_error}
use runboard_lcp.Json.{Json, obj, arr, str, int, cons, nil, field, end, lookup}
use runboard_lcp.Metrics.Grid.{Point, on_grid}
use runboard_lcp.Metrics.Grid.Latest.{value_at, latest, on_grid-latest}
use runboard_lcp.Metrics.Names.{expr_for, tensorfold, vllm, expressions_of}
use runboard_lcp.Metrics.Names.Translated.{expr_for-translated}
use runboard_lcp.Metrics.Parse.{parse_engine}
use runboard_lcp.Metrics.Parse.Totals.{all_shares, total, parse_engine-total}
use runboard_lcp.Metrics.Prom.{Prometheus, prom_range, range_url}
use runboard_lcp.Metrics.Reals.{Reals, Number, finite, no_number}
use runboard_lcp.Metrics.Recent.{counter_expr}
use runboard_lcp.Metrics.Series.{
  Line, Entry, entry_for, put_entry, ask, draw, is_current, chart_keys, series,
}
use runboard_lcp.Metrics.Series.Origin.{series-serves_old, series-half_drawn, entry_at}
use runboard_lcp.Metrics.Stream.{max_samples, Reading, reset}
use runboard_lcp.Metrics.Stream.Window.{samples_of, note_readings, note_single_stream-window}

abbrev number_or : Option ℕ → Number ℕ
number_or none = no_number
number_or (some n) = finite n

abbrev since_zero : ℤ → ℕ
since_zero (pos n) = n
since_zero (negsuc n) = 0

-- Whole numbers, which do not go below 0.
abbrev pub naturals : Reals
naturals = record {
  R = ℕ;
  zero = 0;
  add = λ a b. a + b;
  sub = λ a b. a - b;
  mul = λ a b. a * b;
  div = λ a b. a / b;
  is_pos = λ n. ltb 0 n;
  is_one = λ n. n =ℕ= 1;
  is_zero = λ n. n =ℕ= 0;
  parse = λ s. number_or (parse_nat s);
  classify = λ n. finite n;
  of_int = λ i. since_zero i;
  to_int = λ n. pos n;
  round_int = λ n. pos n;
}

has_expression :
    expr_for "prefix_hit" tensorfold
    ≡ ok
        "100 * sum(rate(tensorfold_health:cached_tokens_total[30m])) / sum(rate(tensorfold:prompt_tokens_total[30m]))"
unfolding expr_for find_key expressions_of
has_expression = refl

expr_for-translated_example :
    (contains
        "100 * sum(rate(tensorfold_health:cached_tokens_total[30m])) / sum(rate(tensorfold:prompt_tokens_total[30m]))"
        "vllm:"
      ≡ false)
    × (contains (counter_expr tensorfold) "vllm:" ≡ false)
expr_for-translated_example = expr_for-translated "prefix_hit" has_expression

parse_engine-total_example :
    find_key "up" (parse_engine naturals "up 1\nup{a=\"b\"} 2").sums
    ≡ total naturals "up" (all_shares naturals (split_lines "up 1\nup{a=\"b\"} 2")) none
parse_engine-total_example = parse_engine-total naturals "up 1\nup{a=\"b\"} 2" "up"

abbrev reading : ℕ → ℕ → ℕ → Reading naturals
reading tokens seconds requests = record {
  generated = some tokens;
  decoding = some seconds;
  finished = some requests;
}

abbrev readings : List (Reading naturals)
readings = reading 0 0 0 ∷ reading 120 4 1 ∷ reading 900 9 3 ∷ []

note_single_stream-window_example :
    (note_readings naturals readings (reset naturals)).samples
    ≡ last_n max_samples (samples_of naturals none readings)
note_single_stream-window_example = note_single_stream-window naturals readings

abbrev point : ℕ → ℕ → Point ℕ
point t v = record { t = t; v = v }

on_grid-latest_example :
    let points = point 1000 5 ∷ point 1060 7 ∷ [] in
    (length (on_grid points 1000 60 3) ≡ 3)
    × ((i : ℕ) → i < 3 → value_at i (on_grid points 1000 60 3) ≡ latest 1000 60 i points none)
on_grid-latest_example = on_grid-latest (point 1000 5 ∷ point 1060 7 ∷ []) 1000 60 3

-- Prometheus answers with one point where it is asked for the tokens, and fails elsewhere.
abbrev payload : Json ℕ
payload = obj (
    field "data"
      (obj (
        field "result"
          (arr (
            cons
              (obj (
                field "values" (arr (cons (arr (cons (int (pos 1060)) (cons (str "5") nil))) nil))
                  end))
              nil))
          end))
      end)

abbrev pub dying : Prometheus naturals
dying = record {
  quote = λ s. s;
  fetch =
      λ url. if contains url "vllm:generation_tokens_total" then ok payload else raised type_error;
}

abbrev old_line : Line naturals
old_line = record {
  key = "output_tps";
  label = "output tok/s (engine-wide)";
  start = 1000;
  step = 60;
  values = none ∷ some 5 ∷ none ∷ [];
}

abbrev old_entry : Entry naturals
old_entry = record { window = 120; step = 60; lines = old_line ∷ []; at = 1110; family = vllm }

finds_old : entry_for naturals 120 60 (old_entry ∷ []) ≡ some old_entry
unfolding entry_for
finds_old = refl

other_family : is_current naturals tensorfold 1120 old_entry ≡ false
unfolding is_current
other_family = refl

asks_in_vain : ask naturals dying tensorfold 1120 120 60 "output_tps" ≡ raised type_error
unfolding ask expr_for prom_range range_url
asks_in_vain = refl

series-serves_old_example :
    series naturals dying tensorfold 1120 120 60 (old_entry ∷ []) ≡ (old_line ∷ [], old_entry ∷ [])
series-serves_old_example =
    series-serves_old naturals dying tensorfold 1120 120 60 (old_entry ∷ []) old_entry type_error
      finds_old other_family asks_in_vain

no_entry : entry_for naturals 120 60 [] ≡ none
unfolding entry_for
no_entry = refl

asks_twice : ask naturals dying vllm 1120 120 60 "prefill_tps" ≡ raised type_error
unfolding ask expr_for prom_range range_url
asks_twice = refl

first_line :
    draw naturals
      (ask naturals dying vllm 1120 120 60)
      1120
      120
      60
      (("output_tps", "output tok/s (engine-wide)") ∷ [])
    ≡ old_line ∷ []
unfolding draw ask expr_for prom_range range_url lookup parse_nat
first_line = refl

two_more :
    chart_keys
    ≡ (("output_tps", "output tok/s (engine-wide)") ∷ [])
      ++ ("prefill_tps", "prefill tok/s") ∷ ("decode_tps", "decode tok/s") ∷ []
unfolding chart_keys
two_more = refl

series-half_drawn_example :
    series naturals dying vllm 1120 120 60 []
    ≡ (old_line ∷ [], put_entry naturals (entry_at naturals 120 60 vllm 1120 (old_line ∷ [])) [])
series-half_drawn_example =
    series-half_drawn naturals dying vllm 1120 120 60 []
      (("output_tps", "output tok/s (engine-wide)") ∷ []) "prefill_tps" "prefill tok/s"
      (("decode_tps", "decode tok/s") ∷ []) type_error old_line [] no_entry two_more asks_twice
      first_line
