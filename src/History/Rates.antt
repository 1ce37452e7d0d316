-- ===== src/History/Rates.antt =====
-- _elapsed, rates, by_family and load_shapes of history_collector.py.
use runboard_lcp.Base.{
  ℕ, String, Option, none, some, List, [], ◌∷◌, ◌++◌, ◌==◌, length, if◌then◌else◌,
}
use runboard_lcp.Base.Assoc.{find_key}
use runboard_lcp.Base.Try.{Try, ok, raised, ◌>>=◌, attribute_error}
use runboard_lcp.Json.{Json, Fields, str, obj, lookup}
use runboard_lcp.Json.Falsy.{truthy}
use runboard_lcp.Metrics.Reals.{Reals}
use runboard_lcp.Throughput.Compute.{as_number}

-- FAMILY_KIND
abbrev pub family_kinds : List (String × String)
family_kinds =
    ("gsm8k", "math / word problems")
    ∷ ("ifeval", "instruction following")
    ∷ ("humaneval", "code generation")
    ∷ ("hard_reasoning", "long-form reasoning")
    ∷ []

-- SHAPE_KIND
abbrev pub shape_kinds : List (String × String)
shape_kinds =
    ("chat_short", "short chat / text generation")
    ∷ ("code_gen", "code generation")
    ∷ ("doc_summary", "long-document prose summarisation")
    ∷ ("tool_call", "tool-call JSON")
    ∷ ("deep_reason", "deep reasoning (long answers, thinking on)")
    ∷ []

-- `kinds.get(name, name)`
unfoldable pub kind_in : List (String × String) → String → String
unfolding find_key
kind_in kinds name = elim (find_key name kinds) [ some kind ↦ kind | none ↦ name ]

-- ELAPSED_KEYS
abbrev pub elapsed_keys : List String
elapsed_keys = "elapsed_s" ∷ "elapsed_seconds" ∷ "elapsed" ∷ []

module _ (rl : Reals) where
  open rl use {R}

  abbrev first_of : Option (Json R) → Option (Json R) → Option (Json R)
  first_of (some v) other = some v
  first_of none other = other

  unfoldable pub first_truthy : List String → Fields R → Option (Json R)
  unfolding truthy lookup
  first_truthy [] row = none
  first_truthy (key ∷ keys) row =
      first_of (truthy rl.is_zero (lookup key row)) (first_truthy keys row)

  abbrev keys_with : Option String → List String
  keys_with none = elapsed_keys
  keys_with (some preferred) = preferred ∷ elapsed_keys

  -- _elapsed
  unfoldable pub elapsed : Option String → Fields R → Option (Json R)
  unfolding first_truthy
  elapsed preferred row = first_truthy (keys_with preferred) row

  -- `ct / e` of a row that has both
  unfoldable pub rate_of_values : Option (Json R) → Option (Json R) → Try (Option R)
  unfolding as_number
  rate_of_values (some ct) (some e) = do
    tokens ← as_number rl ct
    seconds ← as_number rl e
    ok (some (rl.div tokens seconds))
  rate_of_values ct e = ok none

  abbrev add_rate : Option R → List R → List R
  add_rate none vals = vals
  add_rate (some x) vals = x ∷ vals

  -- The list `vals`.
  unfoldable pub row_rates : Option String → List (Fields R) → Try (List R)
  unfolding elapsed rate_of_values truthy lookup
  row_rates preferred [] = ok []
  row_rates preferred (row ∷ rows) =
      let rest = row_rates preferred rows in
      do
        x ←
            rate_of_values (truthy rl.is_zero (lookup "completion_tokens" row))
              (elapsed preferred row)
        vals ← rest
        ok (add_rate x vals)

  unfoldable pub add_tokens : R → Option (Json R) → Try R
  unfolding as_number
  add_tokens total none = ok total
  add_tokens total (some v) = do tokens ← as_number rl v; ok (rl.add total tokens)

  -- The sum of the tokens, over all rows that have some.
  unfoldable pub total_tokens : R → List (Fields R) → Try R
  unfolding add_tokens truthy lookup
  total_tokens total [] = ok total
  total_tokens total (row ∷ rows) =
      add_tokens total (truthy rl.is_zero (lookup "completion_tokens" row)) >>= λ more.
      total_tokens more rows

  -- `round2` is `round(x, 2)`, and `mean` and `median` are of `statistics`.
  pub record Statistics : Type 0 where
    pub round2 : R → R
    pub mean : List R → R
    pub median : List R → R

  pub record RowRates : Type 0 where
    pub n : ℕ
    pub mean : R
    pub p50 : R
    pub tokens : R

  module _ (st : Statistics) where
    unfoldable pub rates_of : List R → List (Fields R) → Try (Option RowRates)
    unfolding total_tokens
    rates_of [] rows = ok none
    rates_of (x ∷ xs) rows = do
      total ← total_tokens rl.zero rows
      ok (
          some (record {
            n = length (x ∷ xs);
            mean = st.round2 (st.mean (x ∷ xs));
            p50 = st.round2 (st.median (x ∷ xs));
            tokens = total;
          }))

    -- rates
    unfoldable pub rates : Option String → List (Fields R) → Try (Option RowRates)
    unfolding row_rates rates_of
    rates preferred rows = row_rates preferred rows >>= λ vals. rates_of vals rows

    -- `groups[name].append(row)`, with the groups in the order of their first rows
    unfoldable pub add_to_group :
        String → Fields R → List (String × List (Fields R)) → List (String × List (Fields R))
    add_to_group name row [] = (name, row ∷ []) ∷ []
    add_to_group name row ((k, rows) ∷ groups) =
        let rest = add_to_group name row groups in
        if k == name then (k, rows ++ row ∷ []) ∷ groups else (k, rows) ∷ rest

    abbrev group_one :
        Option (Json R)
        → Fields R
        → List (String × List (Fields R))
        → List (String × List (Fields R))
    group_one (some (str name)) row groups = add_to_group name row groups
    group_one v row groups = groups

    -- Rows by what they hold under a key; a row without it is left out.
    unfoldable pub group_rows :
        String → List (Fields R) → List (String × List (Fields R)) → List (String × List (Fields R))
    unfolding add_to_group truthy lookup
    group_rows key [] groups = groups
    group_rows key (row ∷ rows) groups =
        group_rows key rows (group_one (truthy rl.is_zero (lookup key row)) row groups)

    pub record EvalFamily : Type 0 where
      pub id : String
      pub kind : String
      pub rates : RowRates

    abbrev add_family :
        List (String × String) → String → Option RowRates → List EvalFamily → List EvalFamily
    add_family kinds name none later = later
    add_family kinds name (some r) later =
        record { id = name; kind = kind_in kinds name; rates = r } ∷ later

    -- A group of which no rate is known is left out.
    unfoldable pub family_rates :
        List (String × String)
        → Option String
        → List (String × List (Fields R))
        → Try (List EvalFamily)
    unfolding rates kind_in
    family_rates kinds preferred [] = ok []
    family_rates kinds preferred ((name, rows) ∷ groups) =
        let rest = family_rates kinds preferred groups in
        do d ← rates preferred rows; later ← rest; ok (add_family kinds name d later)

    -- by_family
    unfoldable pub by_family : List (Fields R) → Try (List EvalFamily)
    unfolding group_rows family_rates
    by_family rows = family_rates family_kinds none (group_rows "family" rows [])

    -- `row.get` of a row that is no dict raises.
    unfoldable pub dicts_of : List (Json R) → Try (List (Fields R))
    dicts_of [] = ok []
    dicts_of (obj d ∷ rows) = let rest = dicts_of rows in do ds ← rest; ok (d ∷ ds)
    dicts_of (v ∷ rows) = raised attribute_error
