-- ===== src/Live/PromText.antt =====
-- parse_prom_text of live_metrics.py, and the match of its regular expression `_LINE`.
use Prim.Native.Char.{Char, code}
use runboard_lcp.Base.{
  ℕ, String, Bool, false, ◌||◌, ◌&&◌, Option, none, some, List, [], ◌∷◌, leb, ◌==◌, ◌=ℕ=◌, is_empty,
  is_space, lstrip, strip, split_lines, if◌then◌else◌,
}
use runboard_lcp.Metrics.Reals.{Reals, Number, finite}

abbrev is_letter : ℕ → Bool
is_letter n = (leb b'a' n && leb n b'z') || (leb b'A' n && leb n b'Z')

-- `[a-zA-Z_:]`
abbrev pub is_name_start : Char → Bool
is_name_start c = is_letter (code c) || (code c =ℕ= b'_') || (code c =ℕ= b':')

-- `[a-zA-Z0-9_:]`
abbrev pub is_name_char : Char → Bool
is_name_char c = is_name_start c || (leb b'0' (code c) && leb (code c) b'9')

-- `[a-zA-Z0-9_:]*` at the start of a text, and what stands behind it. It takes as much as it can: no
-- shorter match is followed by a brace or a blank.
unfoldable pub name_chars : String → String
name_chars String.[] = String.[]
name_chars (String.◌∷◌ c s) =
    let rest = name_chars s in if is_name_char c then String.◌∷◌ c rest else String.[]

unfoldable pub after_name : String → String
after_name String.[] = String.[]
after_name (String.◌∷◌ c s) =
    let rest = after_name s in if is_name_char c then rest else String.◌∷◌ c s

-- `\S*`
unfoldable pub word : String → String
unfolding is_space
word String.[] = String.[]
word (String.◌∷◌ c s) = let rest = word s in if is_space c then String.[] else String.◌∷◌ c rest

abbrev unless_empty : String → Option String
unless_empty String.[] = none
unless_empty (String.◌∷◌ c s) = some (String.◌∷◌ c s)

-- `\s+(\S+)` at the start of a text
unfoldable pub value_after : String → Option String
unfolding word lstrip
value_after String.[] = none
value_after (String.◌∷◌ c s) = if is_space c then unless_empty (word (lstrip s)) else none

abbrev close_labels : Char → Option String → Option (String × String)
close_labels c none = none
close_labels c (some v) = if code c =ℕ= b'}' then some (String.◌∷◌ c String.[], v) else none

abbrev longer_or :
    Char → Option (String × String) → Option (String × String) → Option (String × String)
longer_or c (some (l, v)) other = some (String.◌∷◌ c l, v)
longer_or c none other = other

-- `.*\}` and the value behind it, with the longest labels that a value stands behind.
unfoldable pub labels_and_value : String → Option (String × String)
unfolding value_after
labels_and_value String.[] = none
labels_and_value (String.◌∷◌ c s) =
    longer_or c (labels_and_value s) (close_labels c (value_after s))

-- What `_LINE` matches: the groups name, labels and value.
pub record Sample : Type 0 where
  pub name : String
  pub labels : Option String
  pub value : String

abbrev plain_sample : String → Option String → Option Sample
plain_sample name none = none
plain_sample name (some v) = some (record { name = name; labels = none; value = v })

abbrev pub labelled_sample : String → Char → Option (String × String) → Option Sample
labelled_sample name c none = none
labelled_sample name c (some (l, v)) =
    some (record { name = name; labels = some (String.◌∷◌ c l); value = v })

unfoldable pub match_rest : String → String → Option Sample
unfolding value_after labels_and_value
match_rest name String.[] = none
match_rest name (String.◌∷◌ c s) =
    if code c =ℕ= b'{'
    then labelled_sample name c (labels_and_value s)
    else plain_sample name (value_after (String.◌∷◌ c s))

-- `_LINE.match(line)`
unfoldable pub match_line : String → Option Sample
unfolding match_rest name_chars after_name
match_line String.[] = none
match_line (String.◌∷◌ c s) =
    if is_name_start c then match_rest (String.◌∷◌ c (name_chars s)) (after_name s) else none

-- `line.startswith("#")`
abbrev is_comment : String → Bool
is_comment String.[] = false
is_comment (String.◌∷◌ c s) = code c =ℕ= b'#'

module _ (rl : Reals) where
  open rl use {R}

  -- The two dicts: of the series without labels, and of those with labels by name and labels.
  pub record Parsed : Type 0 where
    pub plain : List (String × R)
    pub labelled : List ((String × String) × R)

  -- `plain[name] = value`
  unfoldable pub set_plain : String → R → List (String × R) → List (String × R)
  set_plain name x [] = (name, x) ∷ []
  set_plain name x ((n, y) ∷ d) =
      let rest = set_plain name x d in if n == name then (n, x) ∷ d else (n, y) ∷ rest

  unfoldable pub set_labelled :
      String × String → R → List ((String × String) × R) → List ((String × String) × R)
  set_labelled key x [] = (key, x) ∷ []
  set_labelled key x ((k, y) ∷ d) =
      let rest = set_labelled key x d in
      if (k.0 == key.0) && (k.1 == key.1) then (k, x) ∷ d else (k, y) ∷ rest

  unfoldable pub keep_value : String → Option String → Number R → Parsed → Parsed
  unfolding set_plain set_labelled
  keep_value name none (finite x) p = record p { plain = set_plain name x p.plain }
  keep_value name (some labels) (finite x) p = record p {
    labelled = set_labelled (name, labels) x p.labelled;
  }
  keep_value name labels n p = p

  unfoldable pub keep_sample : Option Sample → Parsed → Parsed
  unfolding keep_value
  keep_sample none p = p
  keep_sample (some m) p = keep_value m.name m.labels (rl.parse m.value) p

  unfoldable pub read_line : String → Parsed → Parsed
  unfolding keep_sample match_line
  read_line raw p =
      let line = strip raw in
      if is_empty line || is_comment line then p else keep_sample (match_line line) p

  unfoldable pub read_lines : List String → Parsed → Parsed
  unfolding read_line
  read_lines [] p = p
  read_lines (l ∷ ls) p = read_lines ls (read_line l p)

  unfoldable pub parse_prom_text : String → Parsed
  unfolding read_lines
  parse_prom_text text = read_lines (split_lines text) (record { plain = []; labelled = [] })
