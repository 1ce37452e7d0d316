-- ===== src/Exporter/ReadsBack.antt =====
-- What parse_prom_text of live_metrics.py reads of what the exporter prints.
use Prim.Native.Char.{Char, code}
use text.Mathlib.TextLemmas.{cons-append, nil-append, append_assoc}
use runboard_lcp.Base.{
  String, ◌<>◌, ◌≡◌, refl, ◌∙◌, ap, true, false, Option, none, some, ◌=ℕ=◌, is_space, any_eq,
  lstrip, rstrip, strip, arith,
}
use runboard_lcp.Live.PromText.{
  is_name_start, labels_and_value, match_rest, match_line, labelled_sample, Parsed, keep_value,
  keep_sample, read_line,
}
use runboard_lcp.Metrics.Reals.{Reals, Number, finite}
use runboard_lcp.Exporter.Words.{
  is_name, is_word, not_space, name_chars-append, value_after-word, strip-word, rstrip-cons,
}

abbrev brace : Char
brace = "{"

abbrev pub sharp : Char
sharp = "#"

strip-sharp : (s : String) → strip (String.◌∷◌ sharp s) ≡ String.◌∷◌ sharp (rstrip s)
unfolding strip lstrip is_space any_eq
strip-sharp s = rstrip-cons sharp s refl

-- The parts of a line are put together anew, with the value apart.
value_apart :
    (c : Char) (n t v : String)
    → String.◌∷◌ c n <> (t <> (" " <> v)) ≡ String.◌∷◌ c (n <> (t <> " ")) <> v
value_apart c n t v =
    rw
      (
        cons-append c n (t <> (" " <> v)),
        cons-append c (n <> (t <> " ")) v,
        append_assoc n (t <> " ") v,
        append_assoc t " " v,
      )
      refl

value_behind : (n t v : String) → (n <> (t <> " ")) <> v ≡ n <> (t <> (" " <> v))
value_behind n t v = rw (append_assoc n (t <> " ") v, append_assoc t " " v) refl

abbrev blank : Char
blank = " "

blank-cons : (v : String) → " " <> v ≡ String.◌∷◌ blank v
blank-cons v = cons-append blank "" v ∙ ap (String.◌∷◌ blank) (nil-append v)

brace-cons : (v : String) → "{" <> v ≡ String.◌∷◌ brace v
brace-cons v = cons-append brace "" v ∙ ap (String.◌∷◌ brace) (nil-append v)

pub sharp-help : (v : String) → (s : String) × ("# HELP " <> v ≡ String.◌∷◌ sharp s)
sharp-help v = (" HELP " <> v, cons-append sharp " HELP " v)

pub sharp-type : (v : String) → (s : String) × ("# TYPE " <> v ≡ String.◌∷◌ sharp s)
sharp-type v = (" TYPE " <> v, cons-append sharp " TYPE " v)

-- A line whose first character is no blank and no sharp sign.
line_of_name :
    (c : Char) (s v : String)
    → is_name_start c ≡ true
    → is_word v ≡ true
    → strip (String.◌∷◌ c s <> v) ≡ String.◌∷◌ c (s <> v)
line_of_name c s v start h =
    strip-word c s v (not_space c (ground (arith, start))) h ∙ cons-append c s v

module _ (rl : Reals) where
  open rl use {R}

  read_name_line :
      (c : Char) (s v : String) (p : Parsed rl)
      → is_name_start c ≡ true
      → is_word v ≡ true
      → read_line rl (String.◌∷◌ c s <> v) p ≡ keep_sample rl (match_line (String.◌∷◌ c (s <> v))) p
  unfolding read_line
  read_name_line c s v p start h =
      let other : (code c =ℕ= b'#') ≡ false = ground (arith, start) in
      rw (line_of_name c s v start h) (rw other refl)

  -- A line that begins with a sharp sign is passed over.
  pub read_comment : (s : String) (p : Parsed rl) → read_line rl (String.◌∷◌ sharp s) p ≡ p
  unfolding read_line
  read_comment s p = rw (strip-sharp s) refl

  match_plain :
      (c : Char) (n v : String)
      → is_name (String.◌∷◌ c n) ≡ true
      → is_word v ≡ true
      → match_line (String.◌∷◌ c (n <> String.◌∷◌ " " v))
        ≡ some (record { name = String.◌∷◌ c n; labels = none; value = v })
  unfolding match_line match_rest is_name
  match_plain c n v name h =
      let split = name_chars-append n " " v (ground (arith, name)) refl in
      let start : is_name_start c ≡ true = ground (arith, name) in
      rw (start, split.0, split.1, value_after-word v h) refl

  -- A line of a gauge without labels sets the value, if it is finite.
  pub read_plain_line :
      (c : Char) (n v : String) (p : Parsed rl)
      → is_name (String.◌∷◌ c n) ≡ true
      → is_word v ≡ true
      → read_line rl (String.◌∷◌ c n <> ("" <> (" " <> v))) p
        ≡ keep_value rl (String.◌∷◌ c n) none (rl.parse v) p
  unfolding keep_sample is_name
  read_plain_line c n v p name h =
      ap (λ l. read_line rl l p) (value_apart c n "" v)
      ∙ read_name_line c (n <> ("" <> " ")) v p (ground (arith, name)) h
      ∙ rw (value_behind n "" v, nil-append (" " <> v), blank-cons v, match_plain c n v name h) refl

  labelled_plain :
      (n : String) (o : Option (String × String)) (p : Parsed rl)
      → (keep_sample rl (labelled_sample n brace o) p).plain ≡ p.plain
  unfolding keep_sample keep_value
  labelled_plain n none p = refl
  labelled_plain n (some (l, v)) p = by_value (rl.parse v)
    where
      by_value : (x : Number R) → (keep_value rl n (some (String.◌∷◌ brace l)) x p).plain ≡ p.plain
      by_value (finite x) = refl
      by_value x = refl

  match_labelled :
      (c : Char) (n r : String)
      → is_name (String.◌∷◌ c n) ≡ true
      → match_line (String.◌∷◌ c (n <> String.◌∷◌ brace r))
        ≡ labelled_sample (String.◌∷◌ c n) brace (labels_and_value r)
  unfolding match_line match_rest is_name
  match_labelled c n r name =
      let split = name_chars-append n brace r (ground (arith, name)) refl in
      let start : is_name_start c ≡ true = ground (arith, name) in rw (start, split.0, split.1) refl

  -- A line of a gauge with labels leaves the values without labels as they are.
  pub read_labelled_line :
      (c : Char) (n t v : String) (p : Parsed rl)
      → is_name (String.◌∷◌ c n) ≡ true
      → is_word v ≡ true
      → (read_line rl (String.◌∷◌ c n <> (("{" <> t) <> (" " <> v))) p).plain ≡ p.plain
  unfolding is_name
  read_labelled_line c n t v p name h =
      ap (λ l. (read_line rl l p).plain) (value_apart c n ("{" <> t) v)
      ∙ ap (λ q. q.plain) (read_name_line c (n <> (("{" <> t) <> " ")) v p (ground (arith, name)) h)
      ∙ rw
          (
            value_behind n ("{" <> t) v,
            append_assoc "{" t (" " <> v),
            brace-cons (t <> (" " <> v)),
            match_labelled c n (t <> (" " <> v)) name,
          )
          (labelled_plain (String.◌∷◌ c n) (labels_and_value (t <> (" " <> v))) p)
