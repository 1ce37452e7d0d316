-- ===== src/Base/Text.antt =====
-- Python's operations on texts that the program uses, over the characters of a native text.
use Prim.Native.Nat.{ℕ, zero, suc, ◌+◌, ◌-◌, ◌*◌, ◌/◌, ◌%◌}
use Prim.Native.Char.{Char, code}
use Prim.Native.String.{String, len, slice, ◌++◌ as ◌<>◌}
use text.Mathlib.Text.{find?}
use mathlib.Core.Option
use mathlib.Core.Option.{Option, none, some}
use mathlib.Core.Path.{◌≡◌, refl}
use mathlib.Core.Bool.{Bool, true, false, ◌&&◌, ◌||◌}
use mathlib.Core.List.{List, [], ◌∷◌}
use runboard_lcp.Base.Tests.{◌=ℕ=◌, ◌==◌, leb, if◌then◌else◌}

abbrev pub is_empty : String → Bool
is_empty String.[] = true
is_empty (String.◌∷◌ c s) = false

-- `c in text` for one character.
unfoldable pub has_char : ℕ → String → Bool
has_char c String.[] = false
has_char c (String.◌∷◌ d s) = (code d =ℕ= c) || has_char c s

-- `any(c in text for c in chars)`
unfoldable pub has_any : List ℕ → String → Bool
unfolding has_char
has_any [] s = false
has_any (c ∷ cs) s = has_char c s || has_any cs s

unfoldable pub any_eq : ℕ → List ℕ → Bool
any_eq n [] = false
any_eq n (m ∷ ms) = (n =ℕ= m) || any_eq n ms

-- `c.isspace()`, which `strip` and `split` go by.
unfoldable pub is_space : Char → Bool
unfolding any_eq
is_space c =
    let n = code c in
    (leb 9 n && leb n 13)
    || (leb 28 n && leb n 32)
    || (leb 8192 n && leb n 8202)
    || any_eq n (133 ∷ 160 ∷ 5760 ∷ 8232 ∷ 8233 ∷ 8239 ∷ 8287 ∷ 12288 ∷ [])

unfoldable pub lstrip : String → String
unfolding is_space
lstrip String.[] = String.[]
lstrip (String.◌∷◌ c s) = let rest = lstrip s in if is_space c then rest else String.◌∷◌ c s

abbrev pub cons_unless_blank : Bool → Char → String → String
cons_unless_blank b c String.[] = if b then String.[] else String.◌∷◌ c String.[]
cons_unless_blank b c (String.◌∷◌ d s) = String.◌∷◌ c (String.◌∷◌ d s)

unfoldable pub rstrip : String → String
unfolding is_space
rstrip String.[] = String.[]
rstrip (String.◌∷◌ c s) = cons_unless_blank (is_space c) c (rstrip s)

unfoldable pub strip : String → String
unfolding lstrip rstrip
strip s = rstrip (lstrip s)

abbrev pub contains : String → String → Bool
contains text part = elim (find? text part) [ none ↦ false | some i ↦ true ]

-- `text.split(part)[1]`, the text between the first two occurrences of `part`, or `none`.
unfoldable pub after_first : String → String → Option String
after_first text part = elim (find? text part) [
  | none ↦ none
  | some i ↦
      let rest = slice text (i + len part) (len text) in
      elim (find? rest part) [ none ↦ some rest | some j ↦ some (slice rest 0 j) ]
]

-- `text.split(part)[0]`
unfoldable pub before_first : String → String → String
before_first text part = elim (find? text part) [ none ↦ text | some i ↦ slice text 0 i ]

abbrev pub ends_with : String → String → Bool
ends_with text part =
    if leb (len part) (len text) then slice text (len text - len part) (len text) == part else false

-- What stands behind the last `c`: `text.rsplit(c, 1)[1]`.
unfoldable pub after_last : ℕ → String → Option String
after_last c String.[] = none
after_last c (String.◌∷◌ d s) = elim (after_last c s) [
  | some t ↦ some t
  | none ↦ if code d =ℕ= c then some s else none
]

abbrev cons_char : Char → List String → List String
cons_char c [] = String.◌∷◌ c String.[] ∷ []
cons_char c (s ∷ ss) = String.◌∷◌ c s ∷ ss

-- The pieces between the characters that pass the test; one piece more than there are of these.
unfoldable pub split_by : (Char → Bool) → String → List String
split_by p String.[] = String.[] ∷ []
split_by p (String.◌∷◌ c s) =
    let rest = split_by p s in if p c then String.[] ∷ rest else cons_char c rest

unfoldable pub nonempty : List String → List String
nonempty [] = []
nonempty (s ∷ ss) = let rest = nonempty ss in if is_empty s then rest else s ∷ rest

-- `text.split()`
unfoldable pub words : String → List String
unfolding split_by nonempty is_space
words s = nonempty (split_by is_space s)

unfoldable pub is_line_break : Char → Bool
unfolding any_eq
is_line_break c =
    let n = code c in
    (leb 10 n && leb n 13) || (leb 28 n && leb n 30) || any_eq n (133 ∷ 8232 ∷ 8233 ∷ [])

unfoldable pub drop_last_empty : List String → List String
drop_last_empty [] = []
drop_last_empty (s ∷ []) = if is_empty s then [] else s ∷ []
drop_last_empty (s ∷ t ∷ ss) = s ∷ drop_last_empty (t ∷ ss)

-- A carriage return before a line feed is part of that line break.
unfoldable pub join_crlf : String → String
join_crlf String.[] = String.[]
join_crlf (String.◌∷◌ c String.[]) = String.◌∷◌ c String.[]
join_crlf (String.◌∷◌ c (String.◌∷◌ d s)) =
    let rest = join_crlf (String.◌∷◌ d s) in
    if (code c =ℕ= 13) && (code d =ℕ= 10) then rest else String.◌∷◌ c rest

-- `text.splitlines()`
unfoldable pub split_lines : String → List String
unfolding split_by is_line_break drop_last_empty join_crlf
split_lines s = drop_last_empty (split_by is_line_break (join_crlf s))

digits_value : ℕ → String → Option ℕ
digits_value n String.[] = some n
digits_value n (String.◌∷◌ c s) =
    if leb b'0' (code c) && leb (code c) b'9'
    then digits_value (n * 10 + (code c - b'0')) s
    else none

-- `int(text)` on a text of decimal digits, and `none` (ValueError) on any other.
unfoldable pub parse_nat : String → Option ℕ
unfolding digits_value
parse_nat s = if is_empty s then none else digits_value 0 s

abbrev digit_text : ℕ → String
digit_text n =
    if n =ℕ= 0
    then "0"
    else if n =ℕ= 1
    then "1"
    else if n =ℕ= 2
    then "2"
    else if n =ℕ= 3
    then "3"
    else if n =ℕ= 4
    then "4"
    else if n =ℕ= 5
    then "5"
    else if n =ℕ= 6
    then "6"
    else if n =ℕ= 7
    then "7"
    else if n =ℕ= 8
    then "8"
    else "9"

show_digits : ℕ → ℕ → String
show_digits zero n = ""
show_digits (suc f) n =
    let rest = show_digits f (n / 10) in
    if n / 10 =ℕ= 0 then digit_text n else rest <> digit_text (n % 10)

-- `str(n)`, for numbers of at most twenty digits.
unfoldable pub show_nat : ℕ → String
unfolding show_digits
show_nat n = show_digits 20 n

-- `re.match(r"^\s*\[?\d+", text)`: a digit behind blanks and at most one bracket.
abbrev starts_digit : String → Bool
starts_digit String.[] = false
starts_digit (String.◌∷◌ c s) = leb b'0' (code c) && leb (code c) b'9'

drop_bracket : String → String
drop_bracket String.[] = String.[]
drop_bracket (String.◌∷◌ c s) = if code c =ℕ= b'[' then s else String.◌∷◌ c s

unfoldable pub is_row_mark : String → Bool
unfolding lstrip drop_bracket
is_row_mark s = starts_digit (drop_bracket (lstrip s))

show_nat_example : show_nat 16384 ≡ "16384"
unfolding show_nat
show_nat_example = refl

lines_example : split_lines "a\r\nb\n" ≡ "a" ∷ "b" ∷ []
unfolding split_lines
lines_example = refl

pid_example :
    Option.bind
      (after_first "users:((\"python\",pid=4711,fd=3))" "pid=")
      (λ t. parse_nat (before_first t ","))
    ≡ some 4711
unfolding after_first before_first parse_nat Option.bind
pid_example = refl
