-- ===== src/Throughput/Rows.antt =====
-- read_rows of run_throughput.py, which load_rows of corrected_metrics.py and jlines of
-- history_collector.py repeat.
use runboard_lcp.Base.{String, Option, none, some, List, [], ◌∷◌, is_empty, strip, if◌then◌else◌}
use runboard_lcp.Json.{Json}

module _ {F : Type 0} (parse : String → Option (Json F)) where
  abbrev add_row : Option (Json F) → List (Json F) → List (Json F)
  add_row none rows = rows
  add_row (some r) rows = r ∷ rows

  -- The rows of the lines that `json.loads` parses; `parse` gives `none` where it raises.
  unfoldable pub rows_of : List String → List (Json F)
  rows_of [] = []
  rows_of (line ∷ lines) =
      let rest = rows_of lines in
      if is_empty (strip line) then rest else add_row (parse (strip line)) rest

  -- The lines of the file are `none` where it cannot be opened.
  unfoldable pub read_rows : Option (List String) → List (Json F)
  unfolding rows_of
  read_rows none = []
  read_rows (some lines) = rows_of lines

  unfoldable pub load_rows : Option (List String) → List (Json F)
  unfolding read_rows
  load_rows file = read_rows file

  unfoldable pub jlines : Option (List String) → List (Json F)
  unfolding read_rows
  jlines file = read_rows file
