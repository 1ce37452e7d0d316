-- ===== src/Exporter.antt =====
-- zgx_exporter.py: what one scrape of the exporter prints. Each call of `gauge` is a `Gauge`, printed by
-- `gauge_lines`.
pub mod Sampling
pub mod Collect
pub mod Serve
pub mod Words
pub mod ReadsBack
pub mod Scraped
use runboard_lcp.Base.{
  String, ◌<>◌, Option, none, some, List, [], ◌∷◌, ◌++◌, is_empty, if◌then◌else◌,
}
use runboard_lcp.Core.JobId.{join}

-- `value` is the text of the value, and none for `None`.
pub record Gauge : Type 0 where
  pub name : String
  pub value : Option String
  pub labels : List (String × String)
  pub help : String

unfoldable pub label_texts : List (String × String) → List String
label_texts [] = []
label_texts ((k, v) ∷ labels) = (k <> ("=\"" <> (v <> "\""))) ∷ label_texts labels

-- The text between the name and the blank.
unfoldable pub labels_text : List (String × String) → String
unfolding label_texts join
labels_text [] = ""
labels_text (l ∷ ls) = "{" <> (join "," (label_texts (l ∷ ls)) <> "}")

unfoldable pub help_lines : String → String → List String
help_lines name help =
    if is_empty help
    then []
    else ("# HELP " <> (name <> (" " <> help))) ∷ ("# TYPE " <> (name <> " gauge")) ∷ []

-- A gauge without a value prints nothing.
unfoldable pub gauge_lines : Gauge → List String
unfolding labels_text help_lines
gauge_lines g = elim g.value [
  | none ↦ []
  | some v ↦ help_lines g.name g.help ++ (g.name <> (labels_text g.labels <> (" " <> v))) ∷ []
]

unfoldable pub all_gauge_lines : List Gauge → List String
unfolding gauge_lines
all_gauge_lines [] = []
all_gauge_lines (g ∷ gs) = gauge_lines g ++ all_gauge_lines gs

-- `"\n".join(lines) + "\n"`
unfoldable pub exposition : List Gauge → String
unfolding join all_gauge_lines
exposition gs = join "\n" (all_gauge_lines gs) <> "\n"
