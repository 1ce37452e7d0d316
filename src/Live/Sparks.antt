-- ===== src/Live/Sparks.antt =====
-- prom_range and cached_sparks of live_metrics.py.
pub mod Whole
use runboard_lcp.Base.{
  ℕ, ◌+◌, ◌-◌, String, Bool, true, false, ◌&&◌, Option, none, some, List, [], ◌∷◌, ◌++◌, ◌==◌, ltb,
  if◌then◌else◌,
}
use runboard_lcp.Base.Try.{Try, ok, raised, ◌>>=◌, type_error, value_error}
use runboard_lcp.Json.{Json, Items, str, arr, nil, cons}
use runboard_lcp.Json.Falsy.{get, items_or_none}
use runboard_lcp.Live.Spec.{Window}
use runboard_lcp.Metrics.Grid.{Point}
use runboard_lcp.Metrics.Prom.{Prometheus, results, range_url, seconds_of}
use runboard_lcp.Metrics.Reals.{Reals}

-- SPARK_CACHE_S
abbrev pub spark_cache_s : ℕ
spark_cache_s = 30

module _ (rl : Reals) where
  open rl use {R}

  -- `not_nan v` is `float(v)`, and none where it raises or is a NaN; an infinity is a number here.
  module _ (not_nan : Json R → Option R) where
    unfoldable pub point_of : Json R → Try (Option (Point R))
    unfolding seconds_of
    point_of (arr (cons ts (cons v nil))) = at_time (not_nan v)
      where
        at_time : Option R → Try (Option (Point R))
        at_time none = ok none
        at_time (some x) = seconds_of rl ts >>= λ t. ok (some (record { t = t; v = x }))
    point_of (arr xs) = raised value_error
    point_of (str s) = raised value_error
    point_of v = raised type_error

    abbrev add_point : Option (Point R) → List (Point R) → List (Point R)
    add_point none ps = ps
    add_point (some p) ps = p ∷ ps

    unfoldable pub points_of : Items R → Try (List (Point R))
    unfolding point_of
    points_of nil = ok []
    points_of (cons pair rest) =
        let later = points_of rest in point_of pair >>= λ p. later >>= λ ps. ok (add_point p ps)

    unfoldable pub all_points : Items R → Try (List (Point R))
    unfolding get items_or_none points_of
    all_points nil = ok []
    all_points (cons res rest) =
        let later = all_points rest in
        get "values" res >>= λ values. items_or_none rl.is_zero values >>= λ pairs.
        points_of pairs >>= λ ps. later >>= λ qs. ok (ps ++ qs)

    unfoldable pub prom_range : Prometheus rl → String → ℕ → ℕ → ℕ → Try (List (Point R))
    unfolding results all_points range_url
    prom_range p query window step now =
        p.fetch (range_url rl p query window step now) >>= λ payload.
        results rl payload >>= λ found. all_points found

  pub record Spark : Type 0 where
    pub key : String
    pub points : List (Point R)

  abbrev add_spark : String → List (Point R) → List Spark → List Spark
  add_spark key [] later = later
  add_spark key (p ∷ ps) later = record { key = key; points = p ∷ ps } ∷ later

  -- The loop over SPARKS; the first query that fails ends it.
  unfoldable pub draw_sparks :
      (String → Try (List (Point R))) → List (String × String) → Try (List Spark)
  draw_sparks asking [] = ok []
  draw_sparks asking ((key, metric) ∷ rest) =
      let later = draw_sparks asking rest in
      asking metric >>= λ points. later >>= λ drawn. ok (add_spark key points drawn)

  -- What `_cache` holds for a window: its two dicts are written together.
  pub record KeptSparks : Type 0 where
    pub window : String
    pub at : ℕ
    pub sparks : List Spark

  unfoldable pub sparks_for : String → List KeptSparks → Option KeptSparks
  sparks_for name [] = none
  sparks_for name (k ∷ ks) =
      let rest = sparks_for name ks in if k.window == name then some k else rest

  unfoldable pub put_sparks : KeptSparks → List KeptSparks → List KeptSparks
  put_sparks k [] = k ∷ []
  put_sparks k (old ∷ ks) =
      let rest = put_sparks k ks in if old.window == k.window then k ∷ ks else old ∷ rest

  unfoldable pub sparks_of : Option KeptSparks → List Spark
  sparks_of none = []
  sparks_of (some k) = k.sparks

  -- `if sparks.get(wname) and (now - at) < SPARK_CACHE_S`
  unfoldable pub still_good : ℕ → ℕ → List Spark → Option (List Spark)
  still_good now at [] = none
  still_good now at (s ∷ ss) = if ltb now (at + spark_cache_s) then some (s ∷ ss) else none

  unfoldable pub fresh : ℕ → Option KeptSparks → Option (List Spark)
  unfolding still_good
  fresh now none = none
  fresh now (some k) = still_good now k.at k.sparks

  -- The series that are drawn are kept and served; where a query fails or none has a point, the last ones are.
  unfoldable pub keep_drawn :
      String → ℕ → Try (List Spark) → List KeptSparks → List Spark × List KeptSparks
  unfolding sparks_for put_sparks sparks_of
  keep_drawn name now (raised e) memory = (sparks_of (sparks_for name memory), memory)
  keep_drawn name now (ok []) memory = (sparks_of (sparks_for name memory), memory)
  keep_drawn name now (ok (s ∷ ss)) memory =
      (s ∷ ss, put_sparks (record { window = name; at = now; sparks = s ∷ ss }) memory)

  unfoldable pub fresh_or :
      Option (List Spark)
      → List KeptSparks
      → List Spark × List KeptSparks
      → List Spark × List KeptSparks
  fresh_or (some ss) memory otherwise = (ss, memory)
  fresh_or none memory otherwise = otherwise

  -- cached_sparks, with `asking` for prom_range on the seconds and the step of the window
  unfoldable pub cached_sparks :
      (ℕ → ℕ → String → Try (List (Point R)))
      → List (String × String)
      → Window
      → ℕ
      → List KeptSparks
      → List Spark × List KeptSparks
  unfolding draw_sparks fresh keep_drawn sparks_for fresh_or
  cached_sparks asking metrics w now memory =
      fresh_or (fresh now (sparks_for w.name memory)) memory
        (keep_drawn w.name now (draw_sparks (asking w.seconds w.step) metrics) memory)
