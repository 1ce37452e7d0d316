-- ===== src/Metrics/Names.antt =====
-- The tables of engine_metrics.py, and the names of a metric in each family: detect_family, _m and
-- expr_for.
pub mod Translated
use runboard_lcp.Base.{
  ℕ, zero, suc, ◌-◌, String, ◌<>◌, Bool, true, false, Option, none, some, List, [], ◌∷◌,
  if◌then◌else◌,
}
use runboard_lcp.Base.Assoc.{find_key}
use runboard_lcp.Base.Try.{Try, ok, raised, key_error}
use Prim.Native.String.{len}
use text.Mathlib.Text.{starts_with}

pub data Format : Type 0 where
  whole percent num1 num2 count ago : Format

pub record Gauge : Type 0 where
  pub key : String
  pub label : String
  pub unit : String
  pub metric : String
  pub format : Format

pub record Rate : Type 0 where
  pub key : String
  pub label : String
  pub unit : String
  pub format : Format
  pub basis : String

-- GAUGE_ITEMS
unfoldable pub gauge_items : List Gauge
gauge_items =
    record {
      key = "decoding";
      label = "Streams decoding";
      unit = "";
      metric = "vllm:streams_decoding";
      format = whole;
    }
    ∷ record {
      key = "streams_max";
      label = "Concurrent streams max";
      unit = "";
      metric = "vllm:streams_max";
      format = whole;
    }
    ∷ record {
      key = "running";
      label = "Requests in flight (prefill or decode)";
      unit = "";
      metric = "vllm:num_requests_running";
      format = whole;
    }
    ∷ record {
      key = "filling";
      label = "Streams pre-filling";
      unit = "";
      metric = "vllm:streams_filling";
      format = whole;
    }
    ∷ record {
      key = "waiting";
      label = "Requests waiting";
      unit = "";
      metric = "vllm:num_requests_waiting";
      format = whole;
    }
    ∷ record {
      key = "kv_pct";
      label = "KV cache used";
      unit = "%";
      metric = "vllm:kv_cache_usage_perc";
      format = percent;
    }
    ∷ []

-- EXPR
unfoldable pub expressions : List (String × String)
expressions =
    ("output_tps", "sum(rate(vllm:generation_tokens_total[2m]))")
    ∷ (
      "prefill_tps",
      "sum(rate(vllm:request_prefill_kv_computed_tokens_sum[2m])) / sum(rate(vllm:request_prefill_time_seconds_sum[2m]))",
    )
    ∷ (
      "decode_tps",
      "sum(rate(vllm:request_generation_tokens_sum[2m])) / sum(rate(vllm:request_decode_time_seconds_sum[2m]))",
    )
    ∷ (
      "ttft_p50",
      "histogram_quantile(0.50, sum(rate(vllm:time_to_first_token_seconds_bucket[5m])) by (le))",
    )
    ∷ (
      "ttft_p95",
      "histogram_quantile(0.95, sum(rate(vllm:time_to_first_token_seconds_bucket[5m])) by (le))",
    )
    ∷ (
      "prefix_hit",
      "100 * sum(rate(vllm:prefix_cache_hits_total[30m])) / sum(rate(vllm:prefix_cache_queries_total[30m]))",
    )
    ∷ (
      "mtp_accept",
      "100 * sum(rate(vllm:spec_decode_num_accepted_tokens_total[30m])) / sum(rate(vllm:spec_decode_num_draft_tokens_total[30m]))",
    )
    ∷ ("req_per_min", "60 * sum(rate(vllm:request_success_total[5m]))")
    ∷ (
      "e2e_ms",
      "1000 * sum(rate(vllm:e2e_request_latency_seconds_sum[5m])) / sum(rate(vllm:e2e_request_latency_seconds_count[5m]))",
    )
    ∷ []

-- RATE_ITEMS
unfoldable pub rate_items : List Rate
rate_items =
    record {
      key = "output_tps";
      label = "Output tok/s";
      unit = "tok/s";
      format = num2;
      basis =
          "generated tokens/s for the whole engine, 2 m rate (moves while a request is in flight)";
    }
    ∷ record {
      key = "prefill_tps";
      label = "Prefill tok/s";
      unit = "tok/s";
      format = num2;
      basis =
          "prompt tokens the GPU actually computed per second of prefill time, finished requests, 2 m";
    }
    ∷ record {
      key = "decode_tps";
      label = "Decode tok/s";
      unit = "tok/s";
      format = num2;
      basis = "generated tokens per second of decode time, finished requests, 2 m";
    }
    ∷ record {
      key = "ttft_p50";
      label = "TTFT p50";
      unit = "s";
      format = num2;
      basis = "5 m histogram quantile";
    }
    ∷ record {
      key = "ttft_p95";
      label = "TTFT p95";
      unit = "s";
      format = num2;
      basis = "5 m histogram quantile";
    }
    ∷ record {
      key = "prefix_hit";
      label = "Prefix hit";
      unit = "%";
      format = num1;
      basis = "hits/queries, 30 m";
    }
    ∷ record {
      key = "mtp_accept";
      label = "MTP accepted";
      unit = "%";
      format = num1;
      basis = "accepted/draft tokens, 30 m";
    }
    ∷ record {
      key = "req_per_min";
      label = "Requests";
      unit = "/min";
      format = num1;
      basis = "finished requests, 5 m rate";
    }
    ∷ record {
      key = "e2e_ms";
      label = "End-to-end";
      unit = "ms";
      format = num1;
      basis = "mean over finished requests, 5 m";
    }
    ∷ []

-- FAMILY_ALIASES of the family tensorfold, the only one that has an entry
unfoldable pub tensorfold_aliases : List (String × String)
tensorfold_aliases =
    ("vllm:num_requests_running", "tensorfold:requests_running")
    ∷ ("vllm:streams_max", "tensorfold_health:streams_max")
    ∷ ("vllm:streams_decoding", "tensorfold_health:streams{state=\"decoding\"}")
    ∷ ("vllm:streams_filling", "tensorfold_health:streams{state=\"filling\"}")
    ∷ ("vllm:num_requests_waiting", "tensorfold:requests_waiting")
    ∷ ("vllm:kv_cache_usage_perc", "tensorfold:kv_cache_usage_ratio")
    ∷ ("vllm:generation_tokens_total", "tensorfold:generation_tokens_total")
    ∷ ("vllm:request_generation_tokens_sum", "tensorfold:generation_tokens_total")
    ∷ ("vllm:request_decode_time_seconds_count", "tensorfold_health:requests_total")
    ∷ ("vllm:request_decode_time_seconds_sum", "tensorfold_health:decode_seconds_total")
    ∷ ("vllm:time_to_first_token_seconds_bucket", "tensorfold:time_to_first_token_seconds_bucket")
    ∷ ("vllm:spec_decode_num_accepted_tokens_total", "tensorfold:mtp_accepted_total")
    ∷ ("vllm:spec_decode_num_draft_tokens_total", "tensorfold:mtp_drafted_total")
    ∷ ("vllm:request_success_total", "tensorfold_health:requests_total")
    ∷ ("vllm:e2e_request_latency_seconds_sum", "tensorfold:request_latency_seconds_sum")
    ∷ ("vllm:e2e_request_latency_seconds_count", "tensorfold:request_latency_seconds_count")
    ∷ []

-- FAMILY_EXPR of the family tensorfold, the only one that has an entry
unfoldable pub tensorfold_expressions : List (String × String)
tensorfold_expressions =
    (
      "prefill_tps",
      "(sum(rate(tensorfold:prompt_tokens_total[2m])) - sum(rate(tensorfold_health:cached_tokens_total[2m]))) / sum(rate(tensorfold_health:prefill_seconds_total[2m]))",
    )
    ∷ (
      "prefix_hit",
      "100 * sum(rate(tensorfold_health:cached_tokens_total[30m])) / sum(rate(tensorfold:prompt_tokens_total[30m]))",
    )
    ∷ []

-- FAMILY_BASIS of the family tensorfold, the only one that has an entry
unfoldable pub tensorfold_basis : List (String × String)
tensorfold_basis =
    (
      "prefill_tps",
      "prompt tokens minus prefix-cached tokens per second of prefill time, finished requests, 2m",
    )
    ∷ ("prefix_hit", "cached/prompt tokens, 30m")
    ∷ ("mtp_accept", "accepted/drafted tokens, 30m")
    ∷ ("req_per_min", "all requests, 5m rate")
    ∷ []

pub data Family : Type 0 where
  tensorfold vllm unknown : Family

-- `FAMILY_ALIASES.get(family, {})`, and the other two tables alike
unfoldable pub aliases_of : Family → List (String × String)
unfolding tensorfold_aliases
aliases_of tensorfold = tensorfold_aliases
aliases_of family = []

unfoldable pub expressions_of : Family → List (String × String)
unfolding tensorfold_expressions
expressions_of tensorfold = tensorfold_expressions
expressions_of family = []

unfoldable pub basis_of : Family → List (String × String)
unfolding tensorfold_basis
basis_of tensorfold = tensorfold_basis
basis_of family = []

some_starts_with : List String → String → Bool
some_starts_with [] prefix = false
some_starts_with (n ∷ ns) prefix = if starts_with n prefix then true else some_starts_with ns prefix

unfoldable pub detect_family : List String → Family
unfolding some_starts_with
detect_family names =
    if some_starts_with names "tensorfold"
    then tensorfold
    else if some_starts_with names "vllm:"
    then vllm
    else unknown

abbrev or_itself : String → Option String → String
or_itself name none = name
or_itself name (some other) = other

-- _m
unfoldable pub metric_name : String → Family → String
unfolding find_key aliases_of
metric_name metric family = or_itself metric (find_key metric (aliases_of family))

-- `text.replace(part, new)` for a part that is not empty; `skip` characters belong to an occurrence.
unfoldable pub replace_from : ℕ → String → String → String → String
replace_from skip part new String.[] = String.[]
replace_from (suc skip) part new (String.◌∷◌ c s) = replace_from skip part new s
replace_from zero part new (String.◌∷◌ c s) =
    if starts_with (String.◌∷◌ c s) part
    then new <> replace_from (len part - 1) part new s
    else String.◌∷◌ c (replace_from zero part new s)

unfoldable pub replace_each : List (String × String) → String → String
unfolding replace_from
replace_each [] text = text
replace_each ((src, dst) ∷ rest) text = replace_each rest (replace_from zero src dst text)

-- The expression for a key in the names of a family; `EXPR[key]` raises on a key that is not there.
unfoldable pub expr_for : String → Family → Try String
unfolding find_key expressions_of aliases_of expressions replace_each
expr_for key family = elim (find_key key (expressions_of family)) [
  | some override ↦ ok override
  | none ↦ elim (find_key key expressions) [
    | none ↦ raised (key_error key)
    | some text ↦ ok (replace_each (aliases_of family) text)
  ]
]
