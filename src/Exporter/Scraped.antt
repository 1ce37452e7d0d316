-- ===== src/Exporter/Scraped.antt =====
-- What `parse_prom_text` of live_metrics.py makes of a whole scrape of the exporter.
use text.Mathlib.TextLemmas.{append_assoc}
use runboard_lcp.Base.{
  String, ◌<>◌, ◌≡◌, refl, ◌∙◌, sym, ap, ◌⊎◌, inl, inr, Bool, true, false, ◌&&◌, Option, none, some,
  List, [], ◌∷◌, ◌++◌, ◌==◌, is_empty, strip, split_lines, arith, eq_iff, Bool-cases, if◌then◌else◌,
}
use runboard_lcp.Base.Assoc.{find_key}
use runboard_lcp.Base.Lines.{unlines, all_lines, split_lines-unlines}
use runboard_lcp.Core.JobId.{join}
use runboard_lcp.Exporter.{
  Gauge, label_texts, labels_text, help_lines, gauge_lines, all_gauge_lines, exposition,
}
use runboard_lcp.Exporter.ReadsBack.{
  sharp, read_comment, read_plain_line, read_labelled_line, sharp-help, sharp-type,
}
use runboard_lcp.Exporter.Words.{is_name, is_word}
use runboard_lcp.Live.PromText.{
  Parsed, set_plain, keep_value, read_line, read_lines, parse_prom_text,
}
use runboard_lcp.Metrics.Reals.{Reals, Number, finite, no_number, not_finite}

-- The name is a name of the text format, and the value is a word.
unfoldable pub is_printable : Gauge → Bool
unfolding is_name is_word
is_printable g = is_name g.name && elim g.value [ none ↦ true | some v ↦ is_word v ]

unfoldable pub all_printable : List Gauge → Bool
unfolding is_printable
all_printable [] = true
all_printable (g ∷ gs) = is_printable g && all_printable gs

module _ (rl : Reals) where
  open rl use {R}

  -- What a line of a gauge without labels leaves under a key.
  unfoldable newer : String → String → Number R → Option R → Option R
  newer key name (finite x) found = if name == key then some x else found
  newer key name n found = found

  unfoldable newer_value :
      String → String → List (String × String) → Option String → Option R → Option R
  unfolding newer
  newer_value key name [] (some v) found = newer key name (rl.parse v) found
  newer_value key name labels value found = found

  -- The last finite value that a gauge without labels gives under a name.
  unfoldable pub last_value : String → List Gauge → Option R → Option R
  unfolding newer_value
  last_value key [] found = found
  last_value key (g ∷ gs) found = last_value key gs (newer_value key g.name g.labels g.value found)

  find_key-set_plain :
      (key name : String) (x : R) (d : List (String × R))
      → find_key key (set_plain rl name x d) ≡ (if name == key then some x else find_key key d)
  unfolding find_key set_plain
  find_key-set_plain key name x [] = refl
  find_key-set_plain key name x ((n, y) ∷ d) =
      ground (arith, eq_iff n name, eq_iff n key, eq_iff name key, find_key-set_plain key name x d)

  find_key-keep_value :
      (key name : String) (n : Number R) (p : Parsed rl)
      → find_key key (keep_value rl name none n p).plain ≡ newer key name n (find_key key p.plain)
  unfolding keep_value newer
  find_key-keep_value key name (finite x) p = find_key-set_plain key name x p.plain
  find_key-keep_value key name no_number p = refl
  find_key-keep_value key name not_finite p = refl

  read_lines-append :
      (ls ms : List String) (p : Parsed rl)
      → read_lines rl (ls ++ ms) p ≡ read_lines rl ms (read_lines rl ls p)
  unfolding read_lines
  read_lines-append [] ms p = refl
  read_lines-append (l ∷ ls) ms p = read_lines-append ls ms (read_line rl l p)

  read_sharp :
      (l : String)
      → (s : String) × (l ≡ String.◌∷◌ sharp s)
      → (p : Parsed rl) → read_line rl l p ≡ p
  read_sharp l (s, same) p = ap (λ k. read_line rl k p) same ∙ read_comment rl s p

  read_help : (name help : String) (p : Parsed rl) → read_lines rl (help_lines name help) p ≡ p
  unfolding help_lines read_lines
  read_help name help p = by_help (Bool-cases (is_empty help))
    where
      by_help :
          ((is_empty help ≡ true) ⊎ (is_empty help ≡ false))
          → read_lines rl (help_lines name help) p ≡ p
      by_help (inl none_given) = rw none_given refl
      by_help (inr given) =
          rw
            (
              given,
              read_sharp ("# HELP " <> name <> " " <> help) (sharp-help (name <> " " <> help)) p,
            )
            (read_sharp ("# TYPE " <> name <> " gauge") (sharp-type (name <> " gauge")) p)

  read_value_line :
      (key name : String) (labels : List (String × String)) (v : String) (p : Parsed rl)
      → is_name name ≡ true
      → is_word v ≡ true
      → find_key key (read_line rl (name <> (labels_text labels <> (" " <> v))) p).plain
        ≡ newer_value key name labels (some v) (find_key key p.plain)
  unfolding newer_value labels_text is_name
  read_value_line key String.[] labels v p name h = cc
  read_value_line key (String.◌∷◌ c n) [] v p name h =
      ap (λ q. find_key key q.plain) (read_plain_line rl c n v p name h)
      ∙ find_key-keep_value key (String.◌∷◌ c n) (rl.parse v) p
  read_value_line key (String.◌∷◌ c n) (l ∷ ls) v p name h =
      ap (find_key key)
        (read_labelled_line rl c n (join "," (label_texts (l ∷ ls)) <> "}") v p name h)

  newer_value-none :
      (key name : String) (labels : List (String × String)) (found : Option R)
      → newer_value key name labels none found ≡ found
  unfolding newer_value
  newer_value-none key name [] found = refl
  newer_value-none key name (l ∷ ls) found = refl

  -- The lines of one gauge.
  read_gauge :
      (key : String) (g : Gauge) (p : Parsed rl)
      → is_printable g ≡ true
      → find_key key (read_lines rl (gauge_lines g) p).plain
        ≡ newer_value key g.name g.labels g.value (find_key key p.plain)
  unfolding gauge_lines is_printable read_lines
  read_gauge key g p h = by_value g.value h
    where
      by_value :
          (value : Option String)
          → is_printable (record g { value = value }) ≡ true
          → find_key key (read_lines rl (gauge_lines (record g { value = value })) p).plain
            ≡ newer_value key g.name g.labels value (find_key key p.plain)
      by_value none h = sym (newer_value-none key g.name g.labels (find_key key p.plain))
      by_value (some v) h =
          rw
            (
              read_lines-append (help_lines g.name g.help)
                  ((g.name <> (labels_text g.labels <> (" " <> v))) ∷ []) p,
              read_help g.name g.help p,
            )
            (read_value_line key g.name g.labels v p (ground (arith, h)) (ground (arith, h)))

  read_all_gauges :
      (key : String) (gs : List Gauge) (p : Parsed rl)
      → all_printable gs ≡ true
      → find_key key (read_lines rl (all_gauge_lines gs) p).plain
        ≡ last_value key gs (find_key key p.plain)
  unfolding all_gauge_lines all_printable last_value read_lines
  read_all_gauges key [] p h = refl
  read_all_gauges key (g ∷ gs) p h = rw (read_lines-append (gauge_lines g) (all_gauge_lines gs) p) (
      read_all_gauges key gs (read_lines rl (gauge_lines g) p) (ground (arith, h))
      ∙ ap (last_value key gs) (read_gauge key g p (ground (arith, h))))

  join-unlines : (l : String) (ls : List String) → join "\n" (l ∷ ls) <> "\n" ≡ unlines (l ∷ ls)
  unfolding join unlines
  join-unlines l [] = refl
  join-unlines l (m ∷ ls) =
      append_assoc l ("\n" <> join "\n" (m ∷ ls)) "\n"
      ∙ ap (λ t. l <> t)
          (append_assoc "\n" (join "\n" (m ∷ ls)) "\n" ∙ ap (λ t. "\n" <> t) (join-unlines m ls))

  -- Reading the joined lines is reading the lines, with an empty one where there are none.
  read_joined :
      (ls : List String) (p : Parsed rl)
      → all_lines ls ≡ true
      → read_lines rl (split_lines (join "\n" ls <> "\n")) p ≡ read_lines rl ls p
  unfolding join read_lines read_line split_lines strip
  read_joined [] p h = refl
  read_joined (l ∷ ls) p h =
      ap (λ ms. read_lines rl ms p)
        (ap split_lines (join-unlines l ls) ∙ split_lines-unlines (l ∷ ls) h)

  -- What the page reads from a scrape. Let every gauge have a name of the text format, and, unless its value
  -- is `None`, a value that is one word, and let no printed line have a line break in it. Then under each key
  -- `parse_prom_text` of what `collect` prints of these gauges keeps, among the series without labels, the
  -- last value that is finite of the gauges of that name that have no labels, and nothing where there is none:
  -- help texts, gauges without a value and series with labels leave no trace there.
  pub parse_prom_text-exposition :
      (key : String) (gs : List Gauge)
      → all_printable gs ≡ true
      → all_lines (all_gauge_lines gs) ≡ true
      → find_key key (parse_prom_text rl (exposition gs)).plain ≡ last_value key gs none
  unfolding parse_prom_text exposition find_key
  parse_prom_text-exposition key gs names h =
      ap (λ p. find_key key p.plain)
        (read_joined (all_gauge_lines gs) (record { plain = []; labelled = [] }) h)
      ∙ read_all_gauges key gs (record { plain = []; labelled = [] }) names
