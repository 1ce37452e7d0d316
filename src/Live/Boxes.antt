-- ===== src/Live/Boxes.antt =====
-- _fmt_val, _items and _box_block of live_metrics.py.
pub mod Shows
use runboard_lcp.Base.{
  ℕ, String, Bool, true, false, Option, none, some, List, [], ◌∷◌, length, is_empty, if◌then◌else◌,
}
use runboard_lcp.Base.Assoc.{find_key}
use runboard_lcp.Base.Int.{ℤ, pos}
use runboard_lcp.Base.Try.{Error, Try, ok, raised}
use runboard_lcp.Live.PromText.{parse_prom_text}
use runboard_lcp.Live.Spec.{Format, whole, num1, num2, gb, updown, Row, machine, BoxSpec}
use runboard_lcp.Metrics.Card.{Printer, Shown, dash, integer, number}
use runboard_lcp.Metrics.Reals.{Reals}

-- `entry["detail"]`: the number of series, or the type of the exception.
pub data Detail : Type 0 where
  series_read : ℕ → Detail
  failed : Error → Detail
  no_boxes : Detail

module _ (rl : Reals) (pr : Printer rl) where
  open rl use {R}

  pub record Item : Type 0 where
    pub row : Row
    pub value : Shown rl

  -- _fmt_val of a number that `parse_prom_text` kept
  unfoldable pub fmt_number : R → Format → Shown rl
  fmt_number x whole = integer (rl.round_int x)
  fmt_number x num1 = number (pr.round_to 1 x)
  fmt_number x num2 = number (pr.round_to 2 x)
  fmt_number x gb = number (pr.round_to 1 (rl.div x (rl.of_int (pos 1073741824))))
  fmt_number x updown = number x

  unfoldable pub fmt_val : Option R → Format → Shown rl
  unfolding fmt_number
  fmt_val none format = dash
  fmt_val (some x) format = fmt_number x format

  -- _items
  unfoldable pub items : List Row → List (String × R) → List Item
  unfolding fmt_val find_key
  items [] plain = []
  items (r ∷ rs) plain =
      record { row = r; value = fmt_val (find_key r.metric plain) r.format } ∷ items rs plain

  pub record Entry : Type 0 where
    pub key : String
    pub label : String
    pub addr : String
    pub role : String
    pub url : String
    pub is_ok : Bool
    pub detail : Detail
    pub items : List Item

  abbrev entry : BoxSpec → Bool → Detail → List (String × R) → Entry
  entry b is_ok detail plain = record {
    key = b.key;
    label = b.label;
    addr = b.addr;
    role = b.role;
    url = b.url;
    is_ok = is_ok;
    detail = detail;
    items = items machine plain;
  }

  -- What the answer of a box is parsed to, and nothing where there was none.
  unfoldable pub plain_of : Try String → List (String × R)
  unfolding parse_prom_text
  plain_of (raised e) = []
  plain_of (ok text) = (parse_prom_text rl text).plain

  unfoldable pub box_entry : BoxSpec → Try String → Entry
  unfolding items plain_of
  box_entry b (raised e) = entry b false (failed e) []
  box_entry b (ok text) =
      entry b true (series_read (length (plain_of (ok text)))) (plain_of (ok text))

  unfoldable pub other_entries : (String → Try String) → List BoxSpec → List Entry
  unfolding box_entry
  other_entries fetch [] = []
  other_entries fetch (b ∷ bs) = box_entry b (fetch b.url) ∷ other_entries fetch bs

  -- `if idx == 0 and head_url: url = head_url`
  unfoldable pub with_url : Option String → BoxSpec → BoxSpec
  with_url none b = b
  with_url (some url) b = if is_empty url then b else record b { url = url }

  -- _box_block: the entries, and what the head box was parsed to. `fetch` is the request and the decoding.
  unfoldable pub box_block :
      (String → Try String) → Option String → List BoxSpec → List Entry × List (String × R)
  unfolding box_entry other_entries with_url plain_of
  box_block fetch head_url [] = ([], [])
  box_block fetch head_url (b ∷ bs) =
      let head = with_url head_url b in
      let answer = fetch head.url in
      (box_entry head answer ∷ other_entries fetch bs, plain_of answer)
