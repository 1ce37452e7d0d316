-- ===== src/Metrics/Stream.antt =====
-- note_single_stream of engine_metrics.py: the decode rate of a single stream.
pub mod Window
use runboard_lcp.Base.{
  ℕ, Bool, true, false, not, ◌||◌, Option, none, some, List, [], ◌∷◌, ◌++◌, last_n, if◌then◌else◌,
}
use runboard_lcp.Base.Assoc.{find_key}
use runboard_lcp.Metrics.Names.{Family, metric_name}
use runboard_lcp.Metrics.Parse.{Sums}
use runboard_lcp.Metrics.Reals.{Reals}

-- SS_MAXLEN
abbrev pub max_samples : ℕ
max_samples = 20

module _ (rl : Reals) where
  open rl use {R}

  -- The three counters of a reading: tokens generated, seconds of decoding, requests finished.
  pub record Reading : Type 0 where
    pub generated : Option R
    pub decoding : Option R
    pub finished : Option R

  -- The dict `_ss`.
  pub record Sampler : Type 0 where
    pub previous : Option Reading
    pub samples : List R

  -- reset_cache, for the sampler
  abbrev pub reset : Sampler
  reset = record { previous = none; samples = [] }

  unfoldable pub reading_of : Sums rl → Family → Reading
  reading_of counters family = record {
    generated = find_key (metric_name "vllm:generation_tokens_total" family) counters;
    decoding = find_key (metric_name "vllm:request_decode_time_seconds_sum" family) counters;
    finished = find_key (metric_name "vllm:request_decode_time_seconds_count" family) counters;
  }

  -- The quotient of two deltas that are both positive.
  unfoldable pub rate_of : R → R → Option R
  rate_of tokens seconds =
      if not (rl.is_pos tokens) || not (rl.is_pos seconds)
      then none
      else some (rl.div tokens seconds)

  -- A delta of two counters that were both read.
  unfoldable pub delta : Option R → Option R → Option R
  delta (some now) (some before) = some (rl.sub now before)
  delta now before = none

  unfoldable pub sample_of_deltas : Option R → Option R → Option R → Option R
  unfolding rate_of
  sample_of_deltas (some requests) (some tokens) (some seconds) =
      if rl.is_one requests then rate_of tokens seconds else none
  sample_of_deltas requests tokens seconds = none

  -- The sample of an interval in which one request finished and each counter was read.
  unfoldable pub between_readings : Reading → Reading → Option R
  unfolding delta sample_of_deltas
  between_readings before now =
      sample_of_deltas (delta now.finished before.finished) (delta now.generated before.generated)
        (delta now.decoding before.decoding)

  unfoldable pub sample_of : Option Reading → Reading → Option R
  unfolding between_readings
  sample_of none now = none
  sample_of (some before) now = between_readings before now

  -- `samples.append(…)` and `del samples[:-SS_MAXLEN]`
  unfoldable pub keep_sample : Option R → List R → List R
  keep_sample none samples = samples
  keep_sample (some x) samples = last_n max_samples (samples ++ x ∷ [])

  unfoldable pub note_reading : Reading → Sampler → Sampler
  unfolding sample_of keep_sample
  note_reading now s = record {
    previous = some now;
    samples = keep_sample (sample_of s.previous now) s.samples;
  }

  unfoldable pub note_single_stream : Sums rl → Family → Sampler → Sampler
  unfolding reading_of note_reading
  note_single_stream counters family s = note_reading (reading_of counters family) s
