-- ===== src/Exporter/Sampling.antt =====
-- The samples of zgx_exporter.py: sample_gpu, sample_mem and serving_up.
use runboard_lcp.Base.{
  ℕ, ◌+◌, ◌*◌, String, Bool, Option, none, some, List, [], ◌∷◌, ◌==◌, ◌=ℕ=◌, is_empty, strip,
  split_by, words, if◌then◌else◌,
}
use runboard_lcp.Base.Cut.{cut_first}
use runboard_lcp.Base.Int.{ℤ, pos, negsuc}
use runboard_lcp.Server.Post.{parse_int}
use Prim.Native.Char.{Char, code}

abbrev is_comma : Char → Bool
is_comma c = code c =ℕ= b','

pub record Gpu : Type 0 where
  pub power : String
  pub temp : String
  pub util : String
  pub clock : String
  pub throttle : String

abbrev made_of : Option String → Option String → Option String → String → String → Option Gpu
made_of (some p) (some t) (some u) clock throttle =
    some (record { power = p; temp = t; util = u; clock = strip clock; throttle = strip throttle })
made_of p t u clock throttle = none

module _ (float_text : String → Option String) where
  -- `float_text s` is the text of `float(s)`, none where that raises. Fewer than five fields raise too.
  unfoldable pub gpu_of : List String → Option Gpu
  gpu_of (p ∷ t ∷ u ∷ clock ∷ throttle ∷ rest) =
      made_of (float_text (strip p)) (float_text (strip t)) (float_text (strip u)) clock throttle
  gpu_of parts = none

  abbrev unless_blank : String → Option String
  unless_blank s = if is_empty s then none else some s

  -- sample_gpu: `none` for the empty dict. The output is none where the call raises.
  unfoldable pub sample_gpu : Option String → Option Gpu
  unfolding gpu_of
  sample_gpu none = none
  sample_gpu (some out) =
      if is_empty (strip out) then none else gpu_of (split_by is_comma (strip out))

pub record Memory : Type 0 where
  pub available : Option ℤ
  pub swap_free : Option ℤ
  pub swap_total : Option ℤ

unfoldable pub times_1024 : ℤ → ℤ
times_1024 (pos n) = pos (n * 1024)
times_1024 (negsuc n) = negsuc (n * 1024 + 1023)

unfoldable pub with_field : String → ℤ → Memory → Memory
unfolding times_1024
with_field key kb m =
    if key == "MemAvailable"
    then record m { available = some (times_1024 kb) }
    else if key == "SwapFree"
    then record m { swap_free = some (times_1024 kb) }
    else if key == "SwapTotal"
    then record m { swap_total = some (times_1024 kb) }
    else m

abbrev first_word : List String → Option String
first_word [] = none
first_word (w ∷ ws) = some w

abbrev int_of : Option String → Option ℤ
int_of none = none
int_of (some s) = parse_int s

-- A line's key and number; `none` where the line raises.
unfoldable pub mem_line : String → Option (String × ℤ)
unfolding cut_first words parse_int
mem_line line = elim (cut_first b':' line) [
  | none ↦ none
  | some p ↦ elim (int_of (first_word (words (strip p.1)))) [ none ↦ none | some n ↦ some (p.0, n) ]
]

-- sample_mem: the first line that raises ends the loop, and what was read before it stays.
unfoldable pub read_mem : List String → Memory → Memory
unfolding mem_line with_field
read_mem [] m = m
read_mem (line ∷ lines) m = elim (mem_line line) [
  | none ↦ m
  | some p ↦ read_mem lines (with_field p.0 p.1 m)
]

unfoldable pub sample_mem : Option (List String) → Memory
unfolding read_mem
sample_mem none = record { available = none; swap_free = none; swap_total = none }
sample_mem (some lines) =
    read_mem lines (record { available = none; swap_free = none; swap_total = none })

-- serving_up: the status of the answer, none where the request raises.
unfoldable pub serving_up : Option ℕ → ℕ
serving_up none = 0
serving_up (some status) = if status =ℕ= 200 then 1 else 0
