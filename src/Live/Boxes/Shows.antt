-- ===== src/Live/Boxes/Shows.antt =====
-- From the exporter of each box to the page.
use runboard_lcp.Base.{String, Bool, ◌≡◌, refl, ◌∙◌, true, false, Option, none, List, [], ◌∷◌}
use runboard_lcp.Base.Assoc.{find_key}
use runboard_lcp.Base.Lines.{all_lines}
use runboard_lcp.Base.Try.{Error, Try, ok, raised}
use runboard_lcp.Exporter.{Gauge, all_gauge_lines, exposition}
use runboard_lcp.Exporter.Scraped.{all_printable, last_value, parse_prom_text-exposition}
use runboard_lcp.Live.Boxes.{
  Item, Entry, fmt_val, items, plain_of, box_entry, other_entries, with_url, box_block,
}
use runboard_lcp.Live.PromText.{parse_prom_text}
use runboard_lcp.Live.Spec.{Row, machine, BoxSpec}
use runboard_lcp.Metrics.Card.{Printer}
use runboard_lcp.Metrics.Reals.{Reals}

module _ (rl : Reals) (pr : Printer rl) where
  open rl use {R}

  -- Items that show, for each row, what `found` gives for its metric.
  unfoldable pub showing : List Row → (String → Option R) → List (Item rl pr)
  unfolding fmt_val
  showing [] found = []
  showing (r ∷ rs) found =
      record { row = r; value = fmt_val rl pr (found r.metric) r.format } ∷ showing rs found

  items-showing :
      (rs : List Row) (plain : List (String × R))
      → items rl pr rs plain ≡ showing rs (λ key. find_key key plain)
  unfolding items showing
  items-showing [] plain = refl
  items-showing (r ∷ rs) plain = rw (items-showing rs plain) refl

  showing-same :
      (rs : List Row) (f g : String → Option R)
      → ((key : String) → f key ≡ g key)
      → showing rs f ≡ showing rs g
  unfolding showing
  showing-same [] f g same = refl
  showing-same (r ∷ rs) f g same = rw (same r.metric, showing-same rs f g same) refl

  -- A box whose exporter does not answer, or prints these gauges.
  pub data BoxAnswer : Try String → Type 0 where
    silent : (e : Error) → BoxAnswer (raised e)
    printed :
        (gs : List Gauge)
        → all_printable gs ≡ true
        → all_lines (all_gauge_lines gs) ≡ true
        → BoxAnswer (ok (exposition gs))

  -- The gauge's value of each metric, none of a silent box.
  unfoldable pub value_in : {answer : Try String} → BoxAnswer answer → String → Option R
  unfolding last_value
  value_in (silent e) key = none
  value_in (printed gs p l) key = last_value rl key gs none

  unfoldable pub has_answered : {answer : Try String} → BoxAnswer answer → Bool
  has_answered (silent e) = false
  has_answered (printed gs p l) = true

  -- An entry shows its own box.
  pub record Shows (b : BoxSpec) {answer : Try String} (s : BoxAnswer answer) (e : Entry rl pr)
      : Type 0 where
    pub key_is : e.key ≡ b.key
    pub answered : e.is_ok ≡ has_answered s
    pub values : e.items ≡ showing machine (value_in s)

  box_entry-Shows :
      (b : BoxSpec) (answer : Try String) (s : BoxAnswer answer)
      → Shows b s (box_entry rl pr b answer)
  unfolding box_entry plain_of value_in has_answered
  box_entry-Shows b (raised e) (silent _) = record {
    key_is = refl;
    answered = refl;
    values =
        items-showing machine []
        ∙ showing-same machine (λ key. find_key key []) (λ key. none) (λ key. refl);
  }
  box_entry-Shows b (ok _) (printed gs p l) = record {
    key_is = refl;
    answered = refl;
    values =
        items-showing machine (parse_prom_text rl (exposition gs)).plain
        ∙ showing-same machine (λ key. find_key key (parse_prom_text rl (exposition gs)).plain)
            (λ key. last_value rl key gs none) (λ key. parse_prom_text-exposition rl key gs p l);
  }

  module _ (fetch : String → Try String) where
    -- The entries, each of its own box, in order.
    pub data AllShow : List BoxSpec → List (Entry rl pr) → Type 0 where
      no_more : AllShow [] []
      next :
          {b : BoxSpec} {bs : List BoxSpec} {e : Entry rl pr} {es : List (Entry rl pr)}
          → (s : BoxAnswer (fetch b.url)) → Shows b s e
          → AllShow bs es
          → AllShow (b ∷ bs) (e ∷ es)

    -- What each box answers.
    unfoldable pub AllAnswers : List BoxSpec → Type 0
    AllAnswers [] = Unit {0}
    AllAnswers (b ∷ bs) = BoxAnswer (fetch b.url) × AllAnswers bs

    other_entries-AllShow :
        (bs : List BoxSpec) → AllAnswers bs → AllShow bs (other_entries rl pr fetch bs)
    unfolding AllAnswers other_entries
    other_entries-AllShow [] all = no_more
    other_entries-AllShow (b ∷ bs) (s, rest) =
        next s (box_entry-Shows b (fetch b.url) s) (other_entries-AllShow bs rest)

    -- From the exporters to the page. Let every box of the list either not answer, or answer with what the
    -- exporter prints of some gauges, whose names are names of the text format, whose values are words, and
    -- whose lines have no line break. Then `_box_block`, without another exporter for the head, gives one
    -- entry for each box, in order, under its key; it is marked as answered if and only if that box
    -- answered; and each of its items shows the last finite value that a gauge of that box without labels
    -- gives for the item's metric, formatted as the table says, and a dash where there is none, so that a
    -- box that does not answer shows dashes only.
    pub box_block-AllShow :
        (spec : List BoxSpec) → AllAnswers spec → AllShow spec (box_block rl pr fetch none spec).0
    unfolding AllAnswers box_block with_url
    box_block-AllShow [] all = no_more
    box_block-AllShow (b ∷ bs) (s, rest) =
        next s (box_entry-Shows b (fetch b.url) s) (other_entries-AllShow bs rest)
