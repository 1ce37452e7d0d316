-- ===== src/Exporter/Words.antt =====
-- Lines that consist of words: what stripping and the parts of `_LINE` do on them.
use Prim.Native.Char.{Char}
use text.Mathlib.TextLemmas.{cons-append, nil-append}
use runboard_lcp.Base.{
  String, ◌<>◌, ◌≡◌, refl, ◌∙◌, ap, Bool, true, false, not, ◌&&◌, some, is_empty, is_space, any_eq,
  lstrip, rstrip, strip, cons_unless_blank, arith,
}
use runboard_lcp.Base.Lines.{some_char}
use runboard_lcp.Live.PromText.{
  is_name_start, is_name_char, name_chars, after_name, word, value_after,
}

-- A name is a letter, an underscore or a colon, and more of these or digits.
unfoldable pub is_name : String → Bool
unfolding some_char
is_name String.[] = false
is_name (String.◌∷◌ c s) = is_name_start c && not (some_char (λ d. not (is_name_char d)) s)

-- A text that is one word.
unfoldable pub is_word : String → Bool
unfolding some_char
is_word s = not (is_empty s) && not (some_char is_space s)

pub not_space : (c : Char) → is_name_char c ≡ true → is_space c ≡ false
unfolding is_space any_eq
not_space c h = ground (arith, h)

-- A text of name characters ends at the first character that is none.
pub name_chars-append :
    (s : String) (c : Char) (t : String)
    → some_char (λ d. not (is_name_char d)) s ≡ false
    → is_name_char c ≡ false
    → (name_chars (s <> String.◌∷◌ c t) ≡ s) × (after_name (s <> String.◌∷◌ c t) ≡ String.◌∷◌ c t)
unfolding name_chars after_name some_char
name_chars-append String.[] c t all stop = rw (nil-append (String.◌∷◌ c t)) (rw stop (refl, refl))
name_chars-append (String.◌∷◌ d s) c t all stop =
    let first : is_name_char d ≡ true = ground (arith, all) in
    let rest = name_chars-append s c t (ground (arith, all)) stop in
    rw (cons-append d s (String.◌∷◌ c t)) (rw (first, rest.0, rest.1) (refl, refl))

word-word : (v : String) → some_char is_space v ≡ false → word v ≡ v
unfolding word some_char
word-word String.[] h = refl
word-word (String.◌∷◌ c s) h =
    let first : is_space c ≡ false = ground (arith, h) in
    rw (first, word-word s (ground (arith, h))) refl

lstrip-word : (v : String) → some_char is_space v ≡ false → lstrip v ≡ v
unfolding lstrip some_char
lstrip-word String.[] h = refl
lstrip-word (String.◌∷◌ c s) h = let first : is_space c ≡ false = ground (arith, h) in rw first refl

-- A value behind a blank.
pub value_after-word : (v : String) → is_word v ≡ true → value_after (String.◌∷◌ " " v) ≡ some v
unfolding value_after is_word
value_after-word String.[] h = cc
value_after-word (String.◌∷◌ c s) h =
    let free : some_char is_space (String.◌∷◌ c s) ≡ false = ground (arith, h) in
    rw (lstrip-word (String.◌∷◌ c s) free, word-word (String.◌∷◌ c s) free) refl

rstrip-word : (v : String) → some_char is_space v ≡ false → rstrip v ≡ v
unfolding rstrip some_char
rstrip-word String.[] h = refl
rstrip-word (String.◌∷◌ c String.[]) h =
    let first : is_space c ≡ false = ground (arith, h) in rw first refl
rstrip-word (String.◌∷◌ c (String.◌∷◌ d s)) h =
    rw (rstrip-word (String.◌∷◌ d s) (ground (arith, h))) refl

append-cons :
    (s : String) (d : Char) (t : String)
    → (c : Char) × (r : String) × (s <> String.◌∷◌ d t ≡ String.◌∷◌ c r)
append-cons String.[] d t = (d, t, nil-append (String.◌∷◌ d t))
append-cons (String.◌∷◌ e s) d t = (e, s <> String.◌∷◌ d t, cons-append e s (String.◌∷◌ d t))

rstrip-append :
    (s : String) (d : Char) (t : String)
    → some_char is_space (String.◌∷◌ d t) ≡ false
    → rstrip (s <> String.◌∷◌ d t) ≡ s <> String.◌∷◌ d t
unfolding rstrip
rstrip-append String.[] d t h = rw (nil-append (String.◌∷◌ d t)) (rstrip-word (String.◌∷◌ d t) h)
rstrip-append (String.◌∷◌ c s) d t h =
    let (e, r, same) = append-cons s d t in
    rw (cons-append c s (String.◌∷◌ d t)) (rw (rstrip-append s d t h) (rw same refl))

-- A text that starts with no blank and ends with a word is not stripped.
pub strip-word :
    (c : Char) (s : String) (v : String)
    → is_space c ≡ false
    → is_word v ≡ true
    → strip (String.◌∷◌ c s <> v) ≡ String.◌∷◌ c s <> v
unfolding strip lstrip is_word
strip-word c s String.[] first h = cc
strip-word c s (String.◌∷◌ d t) first h =
    let kept : lstrip (String.◌∷◌ c s <> String.◌∷◌ d t) ≡ String.◌∷◌ c s <> String.◌∷◌ d t =
      rw (cons-append c s (String.◌∷◌ d t)) (rw first refl) in
    ap rstrip kept ∙ rstrip-append (String.◌∷◌ c s) d t (ground (arith, h))

pub rstrip-cons :
    (c : Char) (s : String) → is_space c ≡ false → rstrip (String.◌∷◌ c s) ≡ String.◌∷◌ c (rstrip s)
unfolding rstrip
rstrip-cons c s h = by_rest (rstrip s)
  where
    by_rest : (r : String) → cons_unless_blank (is_space c) c r ≡ String.◌∷◌ c r
    by_rest String.[] = rw h refl
    by_rest (String.◌∷◌ d r) = refl
