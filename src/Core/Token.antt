-- ===== src/Core/Token.antt =====
-- read_token, bearer and token_ok of console_core.py.
pub mod Closed
use Prim.Native.Char.{Char, code}
use Prim.Native.Nat.{◌+◌}
use runboard_lcp.Base.Try.{Try, ok, raised, type_error}
use runboard_lcp.Base.{
  ℕ, suc, zero, String, Bool, true, false, ◌&&◌, ◌||◌, Option, none, some, List, [], ◌∷◌, leb, ◌==◌,
  ◌=ℕ=◌, is_empty, strip, if◌then◌else◌,
}

-- The text of the token file, or `none` where it cannot be read.
unfoldable pub read_token : Option String → Option String
unfolding strip
read_token none = none
read_token (some text) = let value = strip text in if is_empty value then none else some value

-- `text.lower()` on ASCII.
abbrev lower_code : Char → ℕ
lower_code c = if leb b'A' (code c) && leb (code c) b'Z' then code c + 32 else code c

-- `text.lower().startswith(prefix)`, with the prefix as codes.
unfoldable pub starts_with_lower : List ℕ → String → Bool
starts_with_lower [] s = true
starts_with_lower (p ∷ ps) String.[] = false
starts_with_lower (p ∷ ps) (String.◌∷◌ c s) = (lower_code c =ℕ= p) && starts_with_lower ps s

-- `text[n:]`
unfoldable pub drop_chars : ℕ → String → String
drop_chars zero s = s
drop_chars (suc n) String.[] = String.[]
drop_chars (suc n) (String.◌∷◌ c s) = drop_chars n s

abbrev bearer_prefix : List ℕ
bearer_prefix = b'b' ∷ b'e' ∷ b'a' ∷ b'r' ∷ b'e' ∷ b'r' ∷ b' ' ∷ []

unfoldable pub bearer : Option String → String
unfolding strip starts_with_lower drop_chars
bearer none = ""
bearer (some header) =
    let stripped = strip header in
    if starts_with_lower bearer_prefix stripped then strip (drop_chars 7 stripped) else stripped

-- `text.isascii()`
unfoldable pub is_ascii : String → Bool
is_ascii String.[] = true
is_ascii (String.◌∷◌ c s) = leb (code c) 127 && is_ascii s

-- `hmac.compare_digest` on two texts, which raises TypeError unless both are ASCII.
unfoldable pub compare_digest : String → String → Try Bool
unfolding is_ascii
compare_digest a b = if is_ascii a && is_ascii b then ok (a == b) else raised type_error

-- `want` is what `console_token()` read.
unfoldable pub token_ok : Option String → Option String → Try Bool
unfolding compare_digest
token_ok none header = ok false
token_ok (some want) header =
    let got = bearer header in
    if is_empty want || is_empty got then ok false else compare_digest got want
