-- ===== src/Live/Spec.antt =====
-- The windows, the tables and the boxes of live_metrics.py.
use Prim.Native.Char.{Char, code}
use runboard_lcp.Base.{
  ℕ, ◌/◌, String, Bool, ◌||◌, Option, none, some, List, [], ◌∷◌, ◌=ℕ=◌, ltb, is_empty, strip,
  split_by, if◌then◌else◌,
}
use runboard_lcp.Base.Assoc.{find_key}
use runboard_lcp.Json.{Json, str}

-- WINDOWS, in seconds
abbrev pub windows : List (String × ℕ)
windows = ("30m", 1800) ∷ ("6h", 21600) ∷ ("24h", 86400) ∷ []

-- DEFAULT_WINDOW
abbrev pub default_window : String
default_window = "30m"

-- SPARK_POINTS
abbrev pub spark_points : ℕ
spark_points = 180

pub record Window : Type 0 where
  pub name : String
  pub seconds : ℕ
  pub step : ℕ

abbrev at_least_60 : ℕ → ℕ
at_least_60 n = if ltb 60 n then n else 60

unfoldable pub window_named : String → ℕ → Window
window_named name seconds = record {
  name = name;
  seconds = seconds;
  step = at_least_60 (seconds / spark_points);
}

-- window_spec: what is no text or no known name falls back.
unfoldable pub window_spec : {F : Type 0} → Option (Json F) → Window
unfolding window_named find_key
window_spec (some (str name)) = elim (find_key name windows) [
  | some seconds ↦ window_named name seconds
  | none ↦ window_named default_window 1800
]
window_spec name = window_named default_window 1800

-- SPARKS, the key and the metric of each
abbrev pub sparks : List (String × String)
sparks =
    ("gpu_util", "zgx_gpu_utilization_percent")
    ∷ ("gpu_power", "zgx_gpu_power_watts")
    ∷ ("gpu_temp", "zgx_gpu_temperature_celsius")
    ∷ ("per_stream", "zgx_load_live_per_stream_tok_s")
    ∷ []

pub data Format : Type 0 where
  whole num1 num2 gb updown : Format

-- One row of MACHINE or RUN_ITEMS.
pub record Row : Type 0 where
  pub key : String
  pub label : String
  pub unit : String
  pub metric : String
  pub format : Format

abbrev row : String → String → String → String → Format → Row
row key label unit metric format = record {
  key = key;
  label = label;
  unit = unit;
  metric = metric;
  format = format;
}

-- MACHINE
abbrev pub machine : List Row
machine =
    row "serving_up" "Serving :18300" "" "zgx_serving_up" updown
    ∷ row "gpu_util" "GPU util" "%" "zgx_gpu_utilization_percent" whole
    ∷ row "gpu_power" "GPU power" "W" "zgx_gpu_power_watts" num1
    ∷ row "gpu_temp" "GPU temp" "C" "zgx_gpu_temperature_celsius" whole
    ∷ row "gpu_clock" "GPU clock" "MHz" "zgx_gpu_clock_mhz" whole
    ∷ row "mem_avail" "Unified mem free" "GB" "zgx_memory_available_bytes" gb
    ∷ []

-- RUN_ITEMS
abbrev pub run_rows : List Row
run_rows =
    row "concurrency" "Concurrency" "" "zgx_load_phase_concurrency" whole
    ∷ row "aggregate_tok_s" "Aggregate decode" "tok/s" "zgx_load_live_aggregate_tok_s" num2
    ∷ row "per_stream_tok_s" "Per-stream mean" "tok/s" "zgx_load_live_per_stream_tok_s" num2
    ∷ row "requests" "Requests measured" "" "zgx_load_requests_total" whole
    ∷ row "errors" "Request errors" "" "zgx_load_errors_total" whole
    ∷ []

pub record BoxSpec : Type 0 where
  pub key : String
  pub label : String
  pub addr : String
  pub url : String
  pub role : String

-- DEFAULT_BOXES
abbrev pub default_boxes : List BoxSpec
default_boxes =
    record {
      key = "head";
      label = "DGX Spark";
      addr = "192.168.1.107";
      url = "http://127.0.0.1:9400/metrics";
      role = "TP rank 0 · head";
    }
    ∷ record {
      key = "worker";
      label = "EdgeXpert";
      addr = "192.168.1.108";
      url = "http://192.168.1.108:9400/metrics";
      role = "TP rank 1 · worker";
    }
    ∷ []

-- An entry of five parts, none of them blank.
unfoldable pub box_of : List String → Option BoxSpec
box_of (k ∷ l ∷ a ∷ u ∷ r ∷ []) =
    if is_empty k || is_empty l || is_empty a || is_empty u || is_empty r
    then none
    else some (record { key = k; label = l; addr = a; url = u; role = r })
box_of parts = none

unfoldable pub all_stripped : List String → List String
all_stripped [] = []
all_stripped (s ∷ ss) = strip s ∷ all_stripped ss

abbrev add_box : Option BoxSpec → List BoxSpec → List BoxSpec
add_box none boxes = boxes
add_box (some b) boxes = b ∷ boxes

abbrev is_bar : Char → Bool
is_bar c = code c =ℕ= b'|'

abbrev is_semicolon : Char → Bool
is_semicolon c = code c =ℕ= b';'

unfoldable pub boxes_of : List String → List BoxSpec
unfolding box_of all_stripped split_by
boxes_of [] = []
boxes_of (chunk ∷ chunks) =
    add_box (box_of (all_stripped (split_by is_bar chunk))) (boxes_of chunks)

abbrev or_default : List BoxSpec → List BoxSpec
or_default [] = default_boxes
or_default (b ∷ bs) = b ∷ bs

-- boxes_spec, of the variable RUNBOARD_BOXES
unfoldable pub boxes_spec : Option String → List BoxSpec
unfolding boxes_of split_by
boxes_spec none = default_boxes
boxes_spec (some raw) =
    if is_empty raw then default_boxes else or_default (boxes_of (split_by is_semicolon raw))
