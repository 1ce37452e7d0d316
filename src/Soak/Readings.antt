-- ===== src/Soak/Readings.antt =====
-- What the function telemetry of load_soak.py reads: nvidia-smi and /proc/meminfo.
use runboard_lcp.Base.{
  String, Bool, Option, none, some, List, [], ◌∷◌, ◌==◌, ◌||◌, ◌=ℕ=◌, map, strip, split_by, words,
  if◌then◌else◌,
}
use runboard_lcp.Base.Cut.{cut_first}
use runboard_lcp.Base.Int.{pos}
use runboard_lcp.Metrics.Reals.{Reals, Number, finite}
use runboard_lcp.Server.Post.{parse_int}
use runboard_lcp.Soak.State.{Soak}
use runboard_lcp.Soak.Telemetry.{Figures, Gauges, sample}
use Prim.Native.Char.{Char, code}

abbrev is_comma : Char → Bool
is_comma c = code c =ℕ= b','

module _ (rl : Reals) (fg : Figures rl) where
  open rl use {R}

  abbrev numbers_read : Number R → Number R → Number R → Option R → Option (Gauges rl)
  numbers_read (finite p) (finite t) (finite u) available =
      some (record { power = p; temp = t; util = u; mem_available = available })
  numbers_read p t u available = none

  -- The five fields of nvidia-smi, of which three are numbers; fewer fields raise.
  unfoldable pub gauges_of : List String → Option R → Option (Gauges rl)
  gauges_of (p ∷ t ∷ u ∷ clock ∷ throttle ∷ rest) available =
      numbers_read (rl.parse p) (rl.parse t) (rl.parse u) available
  gauges_of parts available = none

  abbrev first_word : List String → Option String
  first_word [] = none
  first_word (w ∷ ws) = some w

  -- `int(v.strip().split()[0]) / 1048576.0`
  unfoldable pub gigabytes : String → Option R
  unfolding words strip parse_int
  gigabytes v = elim (first_word (words (strip v))) [
    | none ↦ none
    | some w ↦ elim (parse_int w) [
      | none ↦ none
      | some n ↦ some (rl.div (rl.of_int n) (rl.of_int (pos 1048576)))
    ]
  ]

  abbrev is_kept : String → Bool
  is_kept k = (k == "MemAvailable") || (k == "SwapFree") || (k == "SwapTotal")

  -- `mem.get("MemAvailable")` behind the loop, given what an earlier line said; `none` where a line raises.
  unfoldable pub mem_available : List String → Option R → Option (Option R)
  unfolding gigabytes cut_first
  mem_available [] known = some known
  mem_available (line ∷ lines) known = elim (cut_first b':' line) [
    | none ↦ none
    | some kv ↦
        if is_kept kv.0
        then elim (gigabytes kv.1) [
          | none ↦ none
          | some gb ↦ mem_available lines (if kv.0 == "MemAvailable" then some gb else known)
        ]
        else mem_available lines known
  ]

  abbrev with_memory : List String → Option (Option R) → Option (Gauges rl)
  with_memory parts none = none
  with_memory parts (some available) = gauges_of parts available

  -- What a round reads; `none` where something raises. A number that is not finite is taken to raise.
  unfoldable pub read_gauges : String → List String → Option (Gauges rl)
  unfolding gauges_of mem_available split_by strip
  read_gauges out meminfo =
      with_memory (map strip (split_by is_comma (strip out))) (mem_available meminfo none)

  abbrev sampled_with : R → Option (Gauges rl) → Soak rl → Soak rl
  sampled_with now none s = s
  sampled_with now (some g) s = sample rl fg now g s

  -- A round of the thread: an exception while it reads leaves everything as it was.
  unfoldable pub telemetry_round : R → String → List String → Soak rl → Soak rl
  unfolding read_gauges sample
  telemetry_round now out meminfo s = sampled_with now (read_gauges out meminfo) s
