-- ===== src/Metrics/Card.antt =====
-- The items of the card: _ago, _fmt_val, _item, _note and block of engine_metrics.py.
use runboard_lcp.Base.{
  get_elem?, ℕ, suc, ◌/◌, String, ◌<>◌, Bool, true, false, Option, none, some, List, [], ◌∷◌,
  length, if◌then◌else◌,
}
use runboard_lcp.Base.Assoc.{find_key}
use runboard_lcp.Base.Int.{ℤ, pos}
use runboard_lcp.Base.Try.{Try, ok, raised}
use runboard_lcp.Metrics.Names.{
  Format, whole, percent, num1, num2, count, ago, Gauge, Rate, Family, metric_name, basis_of,
}
use runboard_lcp.Metrics.Parse.{Sums}
use runboard_lcp.Metrics.Reals.{Reals, Number, finite}
use runboard_lcp.Metrics.Recent.{Recent}

module _ (rl : Reals) where
  open rl use {R}

  -- What the card prints: `less` is `<`, `of_decimal n d` the number n/10^d, `round_to n x` is
  -- `round(x, n)`, `int_text` is `str` of an integer, `grouped` is f"{n:,}", `fixed1` is f"{x:.1f}", and
  -- `sorted` sorts.
  pub record Printer : Type 0 where
    pub less : R → R → Bool
    pub round_to : ℕ → R → R
    pub int_text : ℤ → String
    pub grouped : ℤ → String
    pub fixed1 : R → String
    pub sorted : List R → List R

  -- `dash` is `None`.
  pub data Shown : Type 0 where
    dash : Shown
    integer : ℤ → Shown
    number : R → Shown
    text : String → Shown

  pub record Item : Type 0 where
    pub key : String
    pub label : String
    pub unit : String
    pub format : Format
    pub value : Shown
    pub basis : String

  abbrev nat : ℕ → R
  nat n = rl.of_int (pos n)

  module _ (pr : Printer) where
    unfoldable pub ago_text : R → String
    ago_text s =
        if pr.less s (nat 90)
        then pr.int_text (rl.round_int s) <> " s ago"
        else if pr.less s (nat 5400)
        then pr.int_text (rl.round_int (rl.div s (nat 60))) <> " m ago"
        else pr.fixed1 (rl.div s (nat 3600)) <> " h ago"

    unfoldable pub fmt_number : R → Format → Shown
    unfolding ago_text
    fmt_number x whole = integer (rl.round_int x)
    fmt_number x num1 = number (pr.round_to 1 x)
    fmt_number x num2 = number (pr.round_to 2 x)
    fmt_number x percent = number (pr.round_to 1 (rl.mul x (nat 100)))
    fmt_number x count = text (pr.grouped (rl.round_int x))
    fmt_number x ago = text (ago_text x)

    unfoldable pub fmt_finite : Number R → Format → Shown
    unfolding fmt_number
    fmt_finite (finite x) format = fmt_number x format
    fmt_finite n format = dash

    unfoldable pub fmt_val : Option R → Format → Shown
    unfolding fmt_finite
    fmt_val none format = dash
    fmt_val (some x) format = fmt_finite (rl.classify x) format

    unfoldable pub item : (key label unit : String) → Option R → Format → String → Item
    unfolding fmt_val
    item key label unit raw format basis = record {
      key = key;
      label = label;
      unit = unit;
      format = format;
      value = fmt_val raw format;
      basis = basis;
    }

    -- The loop over GAUGE_ITEMS.
    unfoldable pub gauges : Sums rl → Family → List Gauge → List Item
    unfolding find_key metric_name item
    gauges sums family [] = []
    gauges sums family (g ∷ gs) =
        item g.key g.label g.unit (find_key (metric_name g.metric family) sums) g.format
          "engine gauge, read now"
        ∷ gauges sums family gs

    -- What the loop over RATE_ITEMS gives: the items, whether Prometheus still answers, and how many
    -- queries it answered.
    pub record Rates : Type 0 where
      pub items : List Item
      pub prom_ok : Bool
      pub answered : ℕ

    abbrev or_basis : String → Option String → String
    or_basis basis none = basis
    or_basis basis (some other) = other

    unfoldable pub rate_item : Family → Rate → Option R → Item
    unfolding item find_key basis_of
    rate_item family r raw =
        item r.key r.label r.unit raw r.format (or_basis r.basis (find_key r.key (basis_of family)))

    -- Once a query has failed none is made.
    unfoldable pub ask_rate : (String → Try (Option R)) → Bool → Rate → Try (Option R)
    ask_rate asking true r = asking r.key
    ask_rate asking false r = ok none

    abbrev raw_of : Try (Option R) → Option R
    raw_of (ok raw) = raw
    raw_of (raised e) = none

    abbrev pub still : Bool → Try (Option R) → Bool
    still prom_ok (ok raw) = prom_ok
    still prom_ok (raised e) = false

    abbrev one_more : Bool → Try (Option R) → ℕ → ℕ
    one_more true (ok raw) n = suc n
    one_more prom_ok answer n = n

    unfoldable pub rates : (String → Try (Option R)) → Family → Bool → List Rate → Rates
    unfolding ask_rate rate_item
    rates asking family prom_ok [] = record { items = []; prom_ok = prom_ok; answered = 0 }
    rates asking family prom_ok (r ∷ rs) =
        let answer = ask_rate asking prom_ok r in
        let rest = rates asking family (still prom_ok answer) rs in
        record {
          items = rate_item family r (raw_of answer) ∷ rest.items;
          prom_ok = rest.prom_ok;
          answered = one_more prom_ok answer rest.answered;
        }

    abbrev to_real : Option ℤ → Option R
    to_real none = none
    to_real (some n) = some (rl.of_int n)

    abbrev age_real : Option ℕ → Option R
    age_real none = none
    age_real (some n) = some (nat n)

    unfoldable pub recent_items : Recent rl → List Item
    unfolding item
    recent_items c =
        item "gen_win" "Tokens (1 h)" "tok" (to_real c.tokens) count
          "counter increase over the last hour, measured -- 0 means it really served none, a dash means the counter could not be read"
        ∷ item "last_gen" "Last generation" "" (age_real c.age) ago
            "time since the last 30 s interval in which output tokens appeared"
        ∷ []

    -- The middle of the sorted samples; the upper one of two.
    unfoldable pub single_stream_item : List R → Item
    unfolding item
    single_stream_item samples =
        item "ss_decode_tps" "Single-stream decode" "tok/s"
          (get_elem? (pr.sorted samples) (length samples / 2)) num2
          ("measured over the last "
            <> pr.int_text (pos (length samples))
            <> " interval(s) in which exactly one request finished: tokens generated / that request's decode time")
