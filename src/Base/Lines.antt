-- ===== src/Base/Lines.antt =====
-- Texts of lines: what `splitlines` makes of joined lines.
use Prim.Native.Char.{Char, code}
use runboard_lcp.Base.{
  String, ◌<>◌, ◌≡◌, refl, ◌∙◌, ap, Bool, true, false, not, ◌&&◌, ◌||◌, List, [], ◌∷◌, ◌++◌, ◌=ℕ=◌,
  arith, split_by, split_lines, is_line_break, drop_last_empty, join_crlf,
}
use text.Mathlib.TextLemmas.{cons-append, nil-append}

-- Whether a character of the text passes a test.
unfoldable pub some_char : (Char → Bool) → String → Bool
some_char p String.[] = false
some_char p (String.◌∷◌ c s) = p c || some_char p s

-- Each line with a line feed behind it.
unfoldable pub unlines : List String → String
unlines [] = ""
unlines (l ∷ ls) = l <> ("\n" <> unlines ls)

-- No line has a character that ends one.
unfoldable pub all_lines : List String → Bool
unfolding some_char
all_lines [] = true
all_lines (l ∷ ls) = not (some_char is_line_break l) && all_lines ls

abbrev newline : Char
newline = "\n"

feed : (t : String) → "\n" <> t ≡ String.◌∷◌ newline t
feed t = cons-append newline "" t ∙ ap (String.◌∷◌ newline) (nil-append t)

module _ (p : Char → Bool) where
  some_char-append : (s t : String) → some_char p (s <> t) ≡ (some_char p s || some_char p t)
  unfolding some_char
  some_char-append String.[] t = rw (nil-append t) refl
  some_char-append (String.◌∷◌ c s) t =
      rw (cons-append c s t) (ground (arith, some_char-append s t))

  split_by-append :
      (l : String) (c : Char) (t : String)
      → some_char p l ≡ false
      → p c ≡ true
      → split_by p (l <> String.◌∷◌ c t) ≡ l ∷ split_by p t
  unfolding split_by some_char
  split_by-append String.[] c t free stop = rw (nil-append (String.◌∷◌ c t)) (rw stop refl)
  split_by-append (String.◌∷◌ d l) c t free stop =
      let other : p d ≡ false = ground (arith, free) in
      rw (cons-append d l (String.◌∷◌ c t))
        (rw (other, split_by-append l c t (ground (arith, free)) stop) refl)

abbrev is_return : Char → Bool
is_return c = code c =ℕ= 13

join_crlf-free : (s : String) → some_char is_return s ≡ false → join_crlf s ≡ s
unfolding join_crlf some_char
join_crlf-free String.[] h = refl
join_crlf-free (String.◌∷◌ c String.[]) h = refl
join_crlf-free (String.◌∷◌ c (String.◌∷◌ d s)) h =
    let other : is_return c ≡ false = ground (arith, h) in
    rw (join_crlf-free (String.◌∷◌ d s) (ground (arith, h)), other) refl

return-break : (s : String) → some_char is_line_break s ≡ false → some_char is_return s ≡ false
unfolding some_char is_line_break
return-break String.[] h = refl
return-break (String.◌∷◌ c s) h = ground (arith, h, return-break s)

unlines-free : (ls : List String) → all_lines ls ≡ true → some_char is_return (unlines ls) ≡ false
unfolding unlines all_lines split_by is_line_break
unlines-free [] h = refl
unlines-free (l ∷ ls) h =
    rw (some_char-append is_return l ("\n" <> unlines ls), feed (unlines ls))
      (ground (arith, h, return-break l, unlines-free ls))

split_by-unlines :
    (ls : List String) → all_lines ls ≡ true → split_by is_line_break (unlines ls) ≡ ls ++ "" ∷ []
unfolding unlines all_lines split_by is_line_break
split_by-unlines [] h = refl
split_by-unlines (l ∷ ls) h =
    rw
      (
        feed (unlines ls),
        split_by-append is_line_break l newline (unlines ls) (ground (arith, h)) refl,
        split_by-unlines ls (ground (arith, h)),
      )
      refl

drop_last_empty-snoc : (ls : List String) → drop_last_empty (ls ++ "" ∷ []) ≡ ls
unfolding drop_last_empty
drop_last_empty-snoc [] = refl
drop_last_empty-snoc (l ∷ []) = refl
drop_last_empty-snoc (l ∷ m ∷ ls) = ap (λ xs. l ∷ xs) (drop_last_empty-snoc (m ∷ ls))

-- Lines without line breaks are read back.
pub split_lines-unlines : (ls : List String) → all_lines ls ≡ true → split_lines (unlines ls) ≡ ls
unfolding split_lines
split_lines-unlines ls h =
    rw (join_crlf-free (unlines ls) (unlines-free ls h), split_by-unlines ls h)
      (drop_last_empty-snoc ls)
