-- ===== src/Metrics/Series.antt =====
-- series of engine_metrics.py: the charts of the card, and the memory of the last ones.
pub mod Origin
use runboard_lcp.Base.{
  ℕ, suc, ◌+◌, ◌-◌, ◌/◌, String, Bool, true, false, ◌&&◌, Option, none, some, List, [], ◌∷◌, ltb,
  ◌=ℕ=◌, if◌then◌else◌,
}
use runboard_lcp.Base.Try.{Try, ok, raised, ◌>>=◌}
use runboard_lcp.Metrics.Grid.{Point, on_grid}
use runboard_lcp.Metrics.Names.{Family, tensorfold, vllm, unknown, expr_for}
use runboard_lcp.Metrics.Prom.{Prometheus, prom_range}
use runboard_lcp.Metrics.Reals.{Reals}

-- SERIES_CACHE_S
abbrev pub series_cache_s : ℕ
series_cache_s = 30

-- SERIES
unfoldable pub chart_keys : List (String × String)
chart_keys =
    ("output_tps", "output tok/s (engine-wide)")
    ∷ ("prefill_tps", "prefill tok/s")
    ∷ ("decode_tps", "decode tok/s")
    ∷ []

unfoldable pub same_family : Family → Family → Bool
same_family tensorfold tensorfold = true
same_family vllm vllm = true
same_family unknown unknown = true
same_family f g = false

module _ {V : Type 0} where
  unfoldable pub has_value : List (Option V) → Bool
  has_value [] = false
  has_value (none ∷ vs) = has_value vs
  has_value (some v ∷ vs) = true

module _ (rl : Reals) where
  open rl use {R}

  pub record Line : Type 0 where
    pub key : String
    pub label : String
    pub start : ℕ
    pub step : ℕ
    pub values : List (Option R)

  -- What is kept for a window: the lines, when they were drawn, and the family they were asked for. The
  -- three dicts of `_cache` are written together.
  pub record Entry : Type 0 where
    pub window : ℕ
    pub step : ℕ
    pub lines : List Line
    pub at : ℕ
    pub family : Family

  -- The entry under the key f"{window}:{step}".
  unfoldable pub entry_for : ℕ → ℕ → List Entry → Option Entry
  entry_for window step [] = none
  entry_for window step (e ∷ es) =
      let rest = entry_for window step es in
      if (e.window =ℕ= window) && (e.step =ℕ= step) then some e else rest

  unfoldable pub put_entry : Entry → List Entry → List Entry
  put_entry e [] = e ∷ []
  put_entry e (old ∷ es) =
      let rest = put_entry e es in
      if (old.window =ℕ= e.window) && (old.step =ℕ= e.step) then e ∷ es else old ∷ rest

  -- One line: a gap at each time without a point.
  unfoldable pub line_of : String → String → ℕ → ℕ → ℕ → List (Point R) → Line
  unfolding on_grid
  line_of key label now window step points = record {
    key = key;
    label = label;
    start = now - window;
    step = step;
    values = on_grid points (now - window) step (suc (window / step));
  }

  -- A line without a value is left out.
  unfoldable pub add_line : Line → List Line → List Line
  unfolding has_value
  add_line line lines = if has_value line.values then line ∷ lines else lines

  unfoldable pub ask : Prometheus rl → Family → ℕ → ℕ → ℕ → String → Try (List (Point R))
  unfolding expr_for prom_range
  ask p family now window step key =
      expr_for key family >>= λ query. prom_range rl p query window step now

  -- The loop over the keys; it ends at the first that fails.
  unfoldable pub draw :
      (String → Try (List (Point R))) → ℕ → ℕ → ℕ → List (String × String) → List Line
  unfolding add_line line_of
  draw asking now window step [] = []
  draw asking now window step ((key, label) ∷ rest) =
      on_answer key label (asking key) (draw asking now window step rest)
    where
      on_answer : String → String → Try (List (Point R)) → List Line → List Line
      on_answer key label (raised e) later = []
      on_answer key label (ok points) later =
          add_line (line_of key label now window step points) later

  -- `if cached and … family … and (now - at) < SERIES_CACHE_S`
  unfoldable pub is_current : Family → ℕ → Entry → Bool
  unfolding same_family
  is_current family now e =
      (some_lines e.lines && same_family e.family family) && ltb now (e.at + series_cache_s)
    where
      some_lines : List Line → Bool
      some_lines [] = false
      some_lines (l ∷ ls) = true

  unfoldable pub lines_of : Option Entry → List Line
  lines_of none = []
  lines_of (some e) = e.lines

  -- `if out:` the new lines are kept and returned, else the old ones are.
  unfoldable pub keep_lines : Family → ℕ → ℕ → ℕ → List Line → List Entry → List Line × List Entry
  unfolding put_entry entry_for lines_of
  keep_lines family now window step [] memory = (lines_of (entry_for window step memory), memory)
  keep_lines family now window step (l ∷ ls) memory = (
    l ∷ ls,
    put_entry (record { window = window; step = step; lines = l ∷ ls; at = now; family = family })
        memory,
  )

  unfoldable pub current : Family → ℕ → Option Entry → Option Entry
  unfolding is_current
  current family now none = none
  current family now (some e) = if is_current family now e then some e else none

  unfoldable pub kept_or :
      Option Entry → List Entry → List Line × List Entry → List Line × List Entry
  kept_or (some e) memory otherwise = (e.lines, memory)
  kept_or none memory otherwise = otherwise

  unfoldable pub series : Prometheus rl → Family → ℕ → ℕ → ℕ → List Entry → List Line × List Entry
  unfolding ask draw keep_lines current entry_for chart_keys kept_or
  series p family now window step memory =
      kept_or (current family now (entry_for window step memory)) memory (
        keep_lines family now window step
          (draw (ask p family now window step) now window step chart_keys) memory)
