-- ===== src/Base/Cut.antt =====
-- Cutting a text at a character, as `partition`, `rpartition` and `strip(c)` do.
use Prim.Native.Char.{Char, code}
use runboard_lcp.Base.{ℕ, String, Option, none, some, ◌≡◌, refl, ◌=ℕ=◌, if◌then◌else◌}

-- What stands before and behind the first `c`.
unfoldable pub cut_first : ℕ → String → Option (String × String)
cut_first c String.[] = none
cut_first c (String.◌∷◌ d s) =
    let rest = cut_first c s in
    if code d =ℕ= c
    then some (String.[], s)
    else elim rest [ none ↦ none | some p ↦ some (String.◌∷◌ d p.0, p.1) ]

-- What stands before and behind the last `c`.
unfoldable pub cut_last : ℕ → String → Option (String × String)
cut_last c String.[] = none
cut_last c (String.◌∷◌ d s) = elim (cut_last c s) [
  | some p ↦ some (String.◌∷◌ d p.0, p.1)
  | none ↦ if code d =ℕ= c then some (String.[], s) else none
]

abbrev or_pair : {A : Type 0} → A → Option A → A
or_pair p none = p
or_pair p (some q) = q

-- `text.partition(c)` and `text.rpartition(c)`, less the separator.
unfoldable pub partition : ℕ → String → String × String
unfolding cut_first
partition c s = or_pair (s, "") (cut_first c s)

unfoldable pub rpartition : ℕ → String → String × String
unfolding cut_last
rpartition c s = or_pair ("", s) (cut_last c s)

abbrev cons_unless : ℕ → Char → String → String
cons_unless c d String.[] = if code d =ℕ= c then String.[] else String.◌∷◌ d String.[]
cons_unless c d (String.◌∷◌ e s) = String.◌∷◌ d (String.◌∷◌ e s)

-- `text.rstrip(c)` and `text.strip(c)`
unfoldable pub rstrip_char : ℕ → String → String
rstrip_char c String.[] = String.[]
rstrip_char c (String.◌∷◌ d s) = cons_unless c d (rstrip_char c s)

unfoldable pub lstrip_char : ℕ → String → String
lstrip_char c String.[] = String.[]
lstrip_char c (String.◌∷◌ d s) =
    let rest = lstrip_char c s in if code d =ℕ= c then rest else String.◌∷◌ d s

unfoldable pub strip_char : ℕ → String → String
unfolding rstrip_char lstrip_char
strip_char c s = rstrip_char c (lstrip_char c s)

-- `text.replace(c, "")`
unfoldable pub without_char : ℕ → String → String
without_char c String.[] = String.[]
without_char c (String.◌∷◌ d s) =
    let rest = without_char c s in if code d =ℕ= c then rest else String.◌∷◌ d rest

rpartition_example : rpartition b' ' "a{x=\"1 2\"} 5" ≡ ("a{x=\"1 2\"}", "5")
unfolding rpartition
rpartition_example = refl
