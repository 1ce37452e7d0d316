-- ===== src/Tests/Throughput.antt =====
-- Rows of runs and a card, and the theorems on them at concrete inputs.
use runboard_lcp.Base.{
  ℕ, ◌+◌, String, ◌≡◌, refl, true, false, ◌||◌, Option, none, some, List, [], ◌∷◌, ltb, ◌==◌,
}
use runboard_lcp.Base.Int.{pos}
use runboard_lcp.Base.Try.{Try, ok, raised, type_error}
use runboard_lcp.Core.Hub.{is_in}
use runboard_lcp.Dispatcher.Queue.{sort_names}
use runboard_lcp.Json.{Json, obj, int, field, end, lookup}
use runboard_lcp.Metrics.Block.Stops.{rates-stop}
use runboard_lcp.Metrics.Card.{Printer, rates}
use runboard_lcp.Metrics.Names.{Rate, num2, vllm}
use runboard_lcp.Tests.Metrics.{naturals}
use runboard_lcp.Throughput.Compute.{Rounding, GoodRow, Throughput, compute}
use runboard_lcp.Throughput.RunDir.{is_run_of, find_run_dir}
use runboard_lcp.Throughput.RunDir.Match.{is_named_run, find_run_dir-is_run_of}
use mathlib.Core.List.{Memᴰ}

abbrev sum_from : ℕ → List ℕ → ℕ
sum_from n [] = n
sum_from n (x ∷ xs) = sum_from (n + x) xs

abbrev rounding : Rounding naturals
rounding = record { round2 = λ x. x; mean = λ xs. 21; sum = λ xs. sum_from 0 xs }

abbrev rows : List (Json ℕ)
rows =
    obj (field "completion_tokens" (int (pos 80)) (field "elapsed_s" (int (pos 4)) end))
    ∷ obj (field "error" (int (pos 1)) end)
    ∷ obj (field "completion_tokens" (int (pos 120)) (field "elapsed_s" (int (pos 6)) end))
    ∷ []

abbrev good : List (GoodRow naturals)
good = record { tokens = 80; seconds = 4 } ∷ record { tokens = 120; seconds = 6 } ∷ []

abbrev out : Throughput naturals
out = record {
  rows_done = 3;
  errors = 1;
  tokens_total = 200;
  busy_s = 10;
  aggregate_tok_s = some 20;
  per_stream_tok_s = some 21;
  series =
      record { ts = 4; agg_tps = 20; stream_tps = 20 }
      ∷ record { ts = 10; agg_tps = 20; stream_tps = 20 }
      ∷ [];
}

computes : compute naturals rounding rows ≡ ok out
unfolding compute lookup
computes = refl

abbrev folders : List String
folders = "a1-cruz" ∷ "a12-cruz" ∷ "a1-exl3" ∷ []

finds_run : find_run_dir "a1" none (some folders) ≡ some "a1-exl3"
unfolding find_run_dir sort_names
finds_run = refl

find_run_dir-is_run_of_example :
    (is_in folders "a1-exl3" ≡ true)
    × ((is_named_run "a1" none "a1-exl3" || is_run_of "a1" "a1-exl3") ≡ true)
find_run_dir-is_run_of_example = find_run_dir-is_run_of "a1" none folders finds_run

abbrev pub plain : Printer naturals
plain = record {
  less = λ a b. ltb a b;
  round_to = λ n x. x;
  int_text = λ i. "7";
  grouped = λ i. "7";
  fixed1 = λ x. "7.0";
  sorted = λ xs. xs;
}

abbrev rate : String → Rate
rate key = record { key = key; label = key; unit = ""; format = num2; basis = "" }

-- A Prometheus that fails from the start, and one that fails at first.
abbrev down : String → Try (Option ℕ)
down key = raised type_error

abbrev back_again : String → Try (Option ℕ)
back_again key = elim (key == "ttft_p50") [ true ↦ ok (some 3) | false ↦ raised type_error ]

nothing_before : (q : Rate) → Memᴰ q [] → down q.key ≡ back_again q.key
nothing_before q m = elim m [ ]

rates-stop_example :
    rates naturals plain down vllm true (rate "output_tps" ∷ rate "ttft_p50" ∷ [])
    ≡ rates naturals plain back_again vllm true (rate "output_tps" ∷ rate "ttft_p50" ∷ [])
rates-stop_example =
    rates-stop naturals plain down back_again vllm [] (rate "output_tps") (rate "ttft_p50" ∷ [])
      true type_error nothing_before refl refl
