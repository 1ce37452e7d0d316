-- ===== src/Soak/Prompts.antt =====
-- _phases, load_prompts and build_shapes of load_soak.py, and what a worker asks for.
pub mod Found
use runboard_lcp.Base.{
  ℕ, suc, zero, ◌%◌, String, ◌<>◌, Bool, Option, none, some, List, [], ◌∷◌, ◌++◌, ◌==◌, get_elem?,
  length, is_empty, map, strip, if◌then◌else◌,
}
use runboard_lcp.Base.Assoc.{find_key}
use runboard_lcp.Base.Cut.{rstrip_char}
use runboard_lcp.Base.Int.{pos}
use runboard_lcp.Base.Try.{Try, ok, raised, ◌>>=◌, type_error, attribute_error}
use runboard_lcp.Json.{Json, Fields, str, arr, obj, lookup}
use runboard_lcp.Json.Falsy.{truthy}
use runboard_lcp.Metrics.Reals.{Reals}
use runboard_lcp.Soak.State.{Shape, chat_short, code_gen, doc_summary, tool_call, deep_reason}

module _ (rl : Reals) where
  open rl use {R}

  -- (name, c, minutes)
  pub record LoadPhase : Type 0 where
    pub name : String
    pub c : ℕ
    pub minutes : R

  abbrev phase : String → ℕ → ℕ → LoadPhase
  phase n c m = record { name = n; c = c; minutes = rl.of_int (pos m) }

  -- _phases, with what LOAD_PHASES parses to
  unfoldable pub phases : Option (List LoadPhase) → List LoadPhase
  phases (some given) = given
  phases none =
      phase "c1-baseline" 1 10
      ∷ phase "c2" 2 12
      ∷ phase "c4" 4 15
      ∷ phase "c8" 8 15
      ∷ phase "soak-c4" 4 45
      ∷ []

  -- The rows by their family. A family that is no text is never asked for; a list or a dict is no key.
  abbrev pub Groups : Type 0
  Groups = List (String × List (Fields R))

  unfoldable pub add_kit_row : String → Fields R → Groups → Groups
  add_kit_row name row [] = (name, row ∷ []) ∷ []
  add_kit_row name row ((k, rows) ∷ groups) =
      let rest = add_kit_row name row groups in
      if k == name then (k, rows ++ row ∷ []) ∷ groups else (k, rows) ∷ rest

  unfoldable pub add_under : Option (Json R) → Fields R → Groups → Try Groups
  unfolding add_kit_row
  add_under (some (str name)) row groups = ok (add_kit_row name row groups)
  add_under (some (arr xs)) row groups = raised type_error
  add_under (some (obj d)) row groups = raised type_error
  add_under v row groups = ok groups

  unfoldable pub group_all : List (Json R) → Groups → Try Groups
  unfolding add_under lookup
  group_all [] groups = ok groups
  group_all (obj row ∷ rows) groups =
      add_under (lookup "family" row) row groups >>= λ more. group_all rows more
  group_all (v ∷ rows) groups = raised attribute_error

  module _ (parse : String → Option (Json R)) where
    abbrev kept : Option (Json R) → List (Json R) → List (Json R)
    kept none rows = rows
    kept (some r) rows = r ∷ rows

    -- `line.strip().rstrip(",")`
    unfoldable pub kit_line : String → String
    unfolding strip rstrip_char
    kit_line line = rstrip_char b',' (strip line)

    -- The rows of the kit; `parse` is `json.loads`, and a line that it refuses is passed over.
    unfoldable pub kit_rows : List String → List (Json R)
    unfolding kit_line
    kit_rows [] = []
    kit_rows (line ∷ lines) =
        let rest = kit_rows lines in
        if is_empty (kit_line line) then rest else kept (parse (kit_line line)) rest

    -- load_prompts, from the lines of the kit
    unfoldable pub load_prompts : List String → Try Groups
    unfolding kit_rows group_all
    load_prompts lines = group_all (kit_rows lines) []

  abbrev rows_under : Option (List (Fields R)) → List (Fields R)
  rows_under none = []
  rows_under (some rows) = rows

  abbrev add_prompt : Option (Json R) → List (Json R) → List (Json R)
  add_prompt none later = later
  add_prompt (some p) later = p ∷ later

  unfoldable pub prompts_in : List (Fields R) → List (Json R)
  unfolding truthy lookup
  prompts_in [] = []
  prompts_in (row ∷ rows) = add_prompt (truthy rl.is_zero (lookup "prompt" row)) (prompts_in rows)

  -- `[r["prompt"] for r in by.get(family, []) if r.get("prompt")]`
  unfoldable pub prompts_of : String → Groups → List (Json R)
  unfolding prompts_in find_key
  prompts_of family by = prompts_in (rows_under (find_key family by))

  -- `pool or [""]`
  unfoldable pub or_blank : List (Json R) → List (Json R)
  or_blank [] = str "" ∷ []
  or_blank (p ∷ pool) = p ∷ pool

  -- Prompts in a sum of texts or a join: one that is no text raises.
  unfoldable pub texts : List (Json R) → Try (List String)
  texts [] = ok []
  texts (str s ∷ pool) = let rest = texts pool in do more ← rest; ok (s ∷ more)
  texts (v ∷ pool) = raised type_error

  unfoldable pub join_texts : String → List String → String
  join_texts sep [] = ""
  join_texts sep (s ∷ []) = s
  join_texts sep (s ∷ t ∷ more) = s <> (sep <> join_texts sep (t ∷ more))

  -- `text[:n]`
  unfoldable pub prefix : ℕ → String → String
  prefix zero s = ""
  prefix (suc n) String.[] = String.[]
  prefix (suc n) (String.◌∷◌ c s) = String.◌∷◌ c (prefix n s)

  abbrev json_only : String → Json R
  json_only p = str (p <> "\n\nReply with a single JSON object only.")

  -- The prompts of a shape and its max_tokens.
  pub record Pool : Type 0 where
    pub prompts : List (Json R)
    pub max_tokens : ℕ

  pub record Shapes : Type 0 where
    pub gsm : List (Json R)
    pub hard : List (Json R)
    pub code : List (Json R)
    pub calls : List (Json R)
    pub longdoc : String

  unfoldable pub pool_of : Shapes → Shape → Pool
  pool_of s chat_short = record { prompts = or_blank s.gsm; max_tokens = 256 }
  pool_of s deep_reason = record { prompts = or_blank s.hard; max_tokens = 2048 }
  pool_of s code_gen = record { prompts = or_blank s.code; max_tokens = 1536 }
  pool_of s tool_call = record { prompts = s.calls; max_tokens = 512 }
  pool_of s doc_summary = record { prompts = str s.longdoc ∷ []; max_tokens = 700 }

  -- The dict, with the texts of the long document and of the prompts for a tool call
  abbrev pub built : Groups → List String → List String → Shapes
  built by blob calls = record {
    gsm = prompts_of "gsm8k" by;
    hard = prompts_of "hard_reasoning" by;
    code = prompts_of "humaneval" by;
    calls = map json_only calls;
    longdoc =
        "Summarise the following material in about 300 words, then list the three most important items.\n\n"
        <> prefix 32000 (join_texts "\n\n" blob);
  }

  -- build_shapes
  unfoldable pub build_shapes : Groups → Try (Shape → Pool)
  unfolding prompts_of or_blank texts join_texts prefix pool_of
  build_shapes by = texts (prompts_of "ifeval" by ++ prompts_of "gsm8k" by) >>= λ blob.
      texts (or_blank (prompts_of "ifeval" by)) >>= λ calls. ok (pool_of (built by blob calls))

  -- SHAPES[i]
  unfoldable pub shape_at : ℕ → Shape
  shape_at zero = chat_short
  shape_at (suc zero) = code_gen
  shape_at (suc (suc zero)) = doc_summary
  shape_at (suc (suc (suc zero))) = tool_call
  shape_at (suc (suc (suc (suc i)))) = deep_reason

  pub record LoadRequest : Type 0 where
    pub shape : Shape
    pub prompt : Json R
    pub max_tokens : ℕ

  abbrev pub request : Shape → Pool → Json R → LoadRequest
  request shape pool p = record { shape = shape; prompt = p; max_tokens = pool.max_tokens }

  abbrev pub found : Shape → Pool → Option (Json R) → Option LoadRequest
  found shape pool none = none
  found shape pool (some p) = some (request shape pool p)

  abbrev pub from_prompts : ℕ → Shape → Pool → List (Json R) → Option LoadRequest
  from_prompts i shape pool [] = none
  from_prompts i shape pool (p ∷ ps) = found shape pool (get_elem? (p ∷ ps) (i % length (p ∷ ps)))

  abbrev pub from_pool : ℕ → Shape → Pool → Option LoadRequest
  from_pool i shape pool = from_prompts i shape pool pool.prompts

  -- The request number `i` of a worker: SHAPES[i % len(SHAPES)] and pool[i % len(pool)], with `none` for
  -- the exceptions of an empty pool and of an index out of range.
  unfoldable pub next_request : (Shape → Pool) → ℕ → Option LoadRequest
  unfolding shape_at
  next_request shapes i = from_pool i (shape_at (i % 5)) (shapes (shape_at (i % 5)))
