-- ===== src/Metrics/Parse.antt =====
-- parse_engine of engine_metrics.py.
pub mod Totals
use Prim.Native.Char.{Char, code}
use runboard_lcp.Base.{
  ℕ, suc, String, Bool, true, false, ◌&&◌, ◌||◌, Option, none, some, List, [], ◌∷◌, ◌==◌, ◌=ℕ=◌,
  is_empty, strip, has_char, split_by, split_lines, if◌then◌else◌,
}
use runboard_lcp.Base.Assoc.{find_key}
use runboard_lcp.Base.Cut.{partition, rpartition, rstrip_char, strip_char, without_char}
use runboard_lcp.Metrics.Reals.{Reals, Number, finite}
use text.Mathlib.Text.{starts_with}

-- _label_key
unfoldable pub label_key : String → String
unfolding without_char
label_key head = without_char b' ' head

abbrev is_comma : Char → Bool
is_comma c = code c =ℕ= b','

-- The `model_name` of a list of labels, the first one that is there.
model_in : List String → Option String
unfolding partition strip_char
model_in [] = none
model_in (part ∷ parts) =
    let rest = model_in parts in
    let pair = partition b'=' part in
    if strip pair.0 == "model_name" then some (strip_char b'"' (strip pair.1)) else rest

abbrev or_model : Option String → Option String → Option String
or_model none m = m
or_model (some k) m = some k

-- A line's two parts: the series, with its labels, and its value.
unfoldable pub head_of : String → String
unfolding rpartition
head_of line = (rpartition b' ' line).0

unfoldable pub value_of : String → String
unfolding rpartition
value_of line = (rpartition b' ' line).1

unfoldable pub has_labels : String → Bool
has_labels head = has_char b'{' head

unfoldable pub metric_of : String → String
unfolding partition has_labels
metric_of head = if has_labels head then (partition b'{' head).0 else head

-- The model that a series names, if it has labels.
unfoldable pub model_of : String → Option String
unfolding model_in partition rstrip_char has_labels
model_of head =
    if has_labels head
    then model_in (split_by is_comma (rstrip_char b'}' (partition b'{' head).1))
    else none

-- `if not line or line.startswith("#")`
unfoldable pub is_skipped : String → Bool
is_skipped line = is_empty line || starts_with line "#"

module _ (rl : Reals) where
  open rl use {R}

  abbrev pub Sums : Type 0
  Sums = List (String × R)

  abbrev pub plus : Option R → R → R
  plus none x = rl.add rl.zero x
  plus (some y) x = rl.add y x

  -- `sums[key] = sums.get(key, 0.0) + number`
  unfoldable pub add_to : String → R → Sums → Sums
  add_to key x [] = (key, plus none x) ∷ []
  add_to key x ((k, y) ∷ sums) =
      let rest = add_to key x sums in
      if k == key then (k, plus (some y) x) ∷ sums else (k, y) ∷ rest

  pub record Parsed : Type 0 where
    pub sums : Sums
    pub model : Option String
    pub seen : ℕ

  unfoldable pub count_sample : String → R → Parsed → Parsed
  unfolding add_to label_key has_labels metric_of
  count_sample head x p = record p {
    sums =
        (if has_labels head
          then add_to (label_key head) x (add_to (metric_of head) x p.sums)
          else add_to (metric_of head) x p.sums);
    seen = suc p.seen;
  }

  unfoldable pub on_number : String → Number R → Parsed → Parsed
  unfolding count_sample
  on_number head (finite x) p = if is_empty (metric_of head) then p else count_sample head x p
  on_number head n p = p

  unfoldable pub parse_line : String → Parsed → Parsed
  unfolding on_number model_of head_of value_of is_skipped
  parse_line raw p =
      let line = strip raw in
      if is_skipped line
      then p
      else on_number (head_of line) (rl.parse (value_of line))
          (record p { model = or_model p.model (model_of (head_of line)) })

  unfoldable pub parse_lines : List String → Parsed → Parsed
  unfolding parse_line
  parse_lines [] p = p
  parse_lines (l ∷ ls) p = parse_lines ls (parse_line l p)

  unfoldable pub parse_engine : String → Parsed
  unfolding parse_lines
  parse_engine text = parse_lines (split_lines text) (record { sums = []; model = none; seen = 0 })
