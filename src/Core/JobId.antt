-- ===== src/Core/JobId.antt =====
-- new_job_id of console_core.py, and Python's `str` on a parsed value.
use Prim.Native.Char.{Char, code}
use runboard_lcp.Base.{
  ℕ, zero, suc, String, ◌<>◌, Bool, ◌||◌, List, [], ◌∷◌, ◌=ℕ=◌, nonempty, if◌then◌else◌,
}
use runboard_lcp.Json.{Json, str}

-- `c.isalnum()` goes by Python's tables of Unicode, and `show` is `str` on a value that is no text.
pub record Texts (F : Type 0) : Type 0 where
  pub is_alnum : Char → Bool
  pub show : Json F → String

-- `sep.join(parts)`
unfoldable pub join : String → List String → String
join sep [] = ""
join sep (part ∷ []) = part
join sep (part ∷ next ∷ parts) = part <> sep <> join sep (next ∷ parts)

-- `text[:n]`
unfoldable pub first_chars : ℕ → String → String
first_chars zero s = String.[]
first_chars (suc n) String.[] = String.[]
first_chars (suc n) (String.◌∷◌ c s) = String.◌∷◌ c (first_chars n s)

module _ {F : Type 0} (t : Texts F) where
  -- `str(value)`
  unfoldable pub str_of : Json F → String
  str_of (str s) = s
  str_of v = t.show v

  abbrev keeps : Char → Bool
  keeps c = t.is_alnum c || (code c =ℕ= b'-') || (code c =ℕ= b'_') || (code c =ℕ= b'.')

  -- `"".join(c for c in suffix if c.isalnum() or c in "-_.")`
  unfoldable pub clean : String → String
  clean String.[] = String.[]
  clean (String.◌∷◌ c s) = let rest = clean s in if keeps c then String.◌∷◌ c rest else rest

  -- `stamp` is the time of the request.
  unfoldable pub new_job_id : String → String → String → String
  unfolding join first_chars clean
  new_job_id stamp kind suffix =
      join "-" (nonempty (stamp ∷ kind ∷ first_chars 40 (clean suffix) ∷ []))
