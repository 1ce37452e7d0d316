-- ===== src/Metrics/Series/Origin.antt =====
-- Where the lines of a chart come from.
use runboard_lcp.Base.{ℕ, String, ◌≡◌, refl, ap, ◌∙◌, false, none, some, List, [], ◌∷◌, ◌++◌}
use runboard_lcp.Base.Try.{Try, raised, Error}
use runboard_lcp.Metrics.Grid.{Point}
use runboard_lcp.Metrics.Names.{Family}
use runboard_lcp.Metrics.Prom.{Prometheus}
use runboard_lcp.Metrics.Reals.{Reals}
use runboard_lcp.Metrics.Series.{
  chart_keys, Line, Entry, entry_for, put_entry, ask, draw, is_current, lines_of, keep_lines,
  current, kept_or, series,
}

module _ (rl : Reals) where
  open rl use {R}

  -- Nothing is drawn once a key fails.
  draw_to_failure :
      (asking : String → Try (List (Point R))) (now window step : ℕ)
      (before : List (String × String)) (key label : String) (after : List (String × String))
      (e : Error)
      → asking key ≡ raised e
      → draw rl asking now window step (before ++ (key, label) ∷ after)
        ≡ draw rl asking now window step before
  unfolding draw
  draw_to_failure asking now window step [] key label after e h = rw h refl
  draw_to_failure asking now window step ((k, l) ∷ before) key label after e h =
      rw (draw_to_failure asking now window step before key label after e h) refl

  unfoldable pub entry_at : ℕ → ℕ → Family → ℕ → List (Line rl) → Entry rl
  entry_at window step family now lines = record {
    window = window;
    step = step;
    lines = lines;
    at = now;
    family = family;
  }

  abbrev drawn : Prometheus rl → Family → ℕ → ℕ → ℕ → List (Line rl)
  drawn p family now window step =
      draw rl (ask rl p family now window step) now window step chart_keys

  nothing_drawn :
      (p : Prometheus rl) (family : Family) (now window step : ℕ) (e : Error)
      → ask rl p family now window step "output_tps" ≡ raised e
      → drawn p family now window step ≡ []
  unfolding chart_keys draw
  nothing_drawn p family now window step e h =
      draw_to_failure (ask rl p family now window step) now window step [] "output_tps"
        "output tok/s (engine-wide)"
        (("prefill_tps", "prefill tok/s") ∷ ("decode_tps", "decode tok/s") ∷ []) e h

  -- Where the first query fails, the kept chart of the window is served though it is of another family or
  -- too old.
  pub series-serves_old :
      (p : Prometheus rl) (family : Family) (now window step : ℕ) (memory : List (Entry rl))
      (e : Entry rl) (err : Error)
      → entry_for rl window step memory ≡ some e
      → is_current rl family now e ≡ false
      → ask rl p family now window step "output_tps" ≡ raised err
      → series rl p family now window step memory ≡ (e.lines, memory)
  unfolding series current keep_lines lines_of kept_or
  series-serves_old p family now window step memory e err h stale fails =
      rw (h, current, stale, nothing_drawn p family now window step err fails, keep_lines, h) refl

  -- Where no chart of the window is kept and a query fails after at least one line was drawn, the lines
  -- before the failure are served, and kept as the chart of the window.
  pub series-half_drawn :
      (p : Prometheus rl) (family : Family) (now window step : ℕ) (memory : List (Entry rl))
      (before : List (String × String)) (key label : String) (after : List (String × String))
      (err : Error) (l : Line rl) (ls : List (Line rl))
      → entry_for rl window step memory ≡ none
      → chart_keys ≡ before ++ (key, label) ∷ after
      → ask rl p family now window step key ≡ raised err
      → draw rl (ask rl p family now window step) now window step before ≡ l ∷ ls
      → series rl p family now window step memory
        ≡ (l ∷ ls, put_entry rl (entry_at window step family now (l ∷ ls)) memory)
  unfolding series current keep_lines kept_or entry_at
  series-half_drawn p family now window step memory before key label after err l ls h keys fails
        lines =
      let asking = ask rl p family now window step in
      let found : drawn p family now window step ≡ l ∷ ls =
        ap (draw rl asking now window step) keys
        ∙ draw_to_failure asking now window step before key label after err fails
        ∙ lines in
      rw (h, found) refl
