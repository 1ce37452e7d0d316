-- ===== src/Metrics/Prom.antt =====
-- The queries of engine_metrics.py to Prometheus: _vector_value, instant and prom_range.
use runboard_lcp.Base.{
  ℕ, ◌-◌, String, ◌<>◌, true, false, Option, none, some, List, [], ◌∷◌, ◌++◌, show_nat,
  if◌then◌else◌,
}
use runboard_lcp.Base.Int.{ℤ, pos, negsuc}
use runboard_lcp.Base.Try.{Try, ok, raised, ◌>>=◌, type_error, value_error, key_error}
use runboard_lcp.Json.{Json, Items, bool, int, float, str, arr, obj, nil, cons}
use runboard_lcp.Json.Falsy.{is_falsy, get, items_or_none}
use runboard_lcp.Metrics.Grid.{Point}
use runboard_lcp.Metrics.Reals.{Reals, Number, finite, not_finite, no_number, number_of}
use runboard_lcp.Server.Post.{parse_int}

-- PROM_URL
abbrev pub prom_url : String
prom_url = "http://192.168.1.202:9090"

module _ (rl : Reals) where
  open rl use {R}

  -- `quote` is `urllib.parse.quote`, and `fetch` is the request, the decoding of its bytes and `json.loads`.
  pub record Prometheus : Type 0 where
    pub quote : String → String
    pub fetch : String → Try (Json R)

  -- `(value or {}).get(key)`
  unfoldable pub get_or_empty : String → Option (Json R) → Try (Option (Json R))
  unfolding get is_falsy
  get_or_empty key none = ok none
  get_or_empty key (some v) = if is_falsy rl.is_zero v then ok none else get key v

  -- `(payload.get("data") or {}).get("result") or []`
  unfoldable pub results : Json R → Try (Items R)
  unfolding get get_or_empty items_or_none
  results payload = get "data" payload >>= λ section.
      get_or_empty "result" section >>= λ found. items_or_none rl.is_zero found

  -- `float(pair[1])` of `value or [None, None]`, with `no_number` for the errors that the loop skips: a
  -- list or a text that is too short, or whose second item is no number. A dict has no key 1.
  unfoldable pub second : Option (Json R) → Try (Number R)
  unfolding is_falsy number_of
  second none = ok no_number
  second (some (arr (cons a (cons b rest)))) = ok (number_of rl (some b))
  second (some (arr xs)) = ok no_number
  second (some (obj d)) =
      if is_falsy rl.is_zero (obj d) then ok no_number else raised (key_error "1")
  second (some (str s)) = ok (char_number s)
    where
      char_number : String → Number R
      char_number (String.◌∷◌ c (String.◌∷◌ d s)) = rl.parse (String.◌∷◌ d String.[])
      char_number s = no_number
  second (some v) = if is_falsy rl.is_zero v then ok no_number else raised type_error

  -- _vector_value: a result whose value is no number is passed over, one that is not finite is the end.
  unfoldable pub first_value : Items R → Try (Option R)
  unfolding get second
  first_value nil = ok none
  first_value (cons res rest) =
      let later = first_value rest in
      get "value" res >>= λ pair. second pair >>= λ n. value_or later n
    where
      value_or : Try (Option R) → Number R → Try (Option R)
      value_or later no_number = later
      value_or later not_finite = ok none
      value_or later (finite x) = ok (some x)

  unfoldable pub vector_value : Json R → Try (Option R)
  unfolding results first_value
  vector_value payload = results payload >>= λ found. first_value found

  unfoldable pub instant : Prometheus → String → Try (Option R)
  unfolding vector_value
  instant p query = p.fetch (prom_url <> "/api/v1/query?query=" <> p.quote query) >>= vector_value

  abbrev since_1970 : ℤ → ℕ
  since_1970 (pos n) = n
  since_1970 (negsuc n) = 0

  abbrev int_or_error : Option ℤ → Try ℕ
  int_or_error none = raised value_error
  int_or_error (some i) = ok (since_1970 i)

  -- `int(ts)`, for a time that is not before 1970.
  unfoldable pub seconds_of : Json R → Try ℕ
  unfolding parse_int
  seconds_of (int i) = ok (since_1970 i)
  seconds_of (float x) = ok (since_1970 (rl.to_int x))
  seconds_of (bool true) = ok 1
  seconds_of (bool false) = ok 0
  seconds_of (str s) = int_or_error (parse_int s)
  seconds_of v = raised type_error

  -- `for ts, val in …`: the point of a pair, if its value is a finite number. What is no list is not
  -- unpacked.
  unfoldable pub point_of : Json R → Try (Option (Point R))
  unfolding seconds_of number_of
  point_of (arr (cons ts (cons v nil))) = at_time (number_of rl (some v))
    where
      at_time : Number R → Try (Option (Point R))
      at_time (finite x) = seconds_of ts >>= λ t. ok (some (record { t = t; v = x }))
      at_time n = ok none
  point_of (arr xs) = raised value_error
  point_of (str s) = raised value_error
  point_of v = raised type_error

  abbrev add_point : Option (Point R) → List (Point R) → List (Point R)
  add_point none ps = ps
  add_point (some p) ps = p ∷ ps

  unfoldable pub points_of : Items R → Try (List (Point R))
  unfolding point_of
  points_of nil = ok []
  points_of (cons pair rest) =
      let later = points_of rest in point_of pair >>= λ p. later >>= λ ps. ok (add_point p ps)

  unfoldable pub all_points : Items R → Try (List (Point R))
  unfolding get items_or_none points_of
  all_points nil = ok []
  all_points (cons res rest) =
      let later = all_points rest in
      get "values" res >>= λ values. items_or_none rl.is_zero values >>= λ pairs.
      points_of pairs >>= λ ps. later >>= λ qs. ok (ps ++ qs)

  unfoldable pub range_url : Prometheus → String → ℕ → ℕ → ℕ → String
  unfolding show_nat
  range_url p query window step now =
      prom_url
      <> "/api/v1/query_range?query="
      <> p.quote query
      <> "&start="
      <> show_nat (now - window)
      <> "&end="
      <> show_nat now
      <> "&step="
      <> show_nat step

  -- `now` is later than the window is long.
  unfoldable pub prom_range : Prometheus → String → ℕ → ℕ → ℕ → Try (List (Point R))
  unfolding results all_points range_url
  prom_range p query window step now = p.fetch (range_url p query window step now) >>= λ payload.
      results payload >>= λ found. all_points found
