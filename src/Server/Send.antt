-- ===== src/Server/Send.antt =====
-- `_send` of live_server.py. A body is the list of its bytes.
pub mod ReadsBack
use runboard_lcp.Base.{
  ℕ, String, Bool, true, false, ◌&&◌, ◌||◌, Option, none, some, List, [], ◌∷◌, length, leb,
  if◌then◌else◌,
}
use runboard_lcp.Core.Token.{starts_with_lower}

-- `part in text.lower()`, with the part as codes of ASCII.
unfoldable pub contains_lower : List ℕ → String → Bool
contains_lower part String.[] = starts_with_lower part String.[]
contains_lower part (String.◌∷◌ c s) =
    starts_with_lower part (String.◌∷◌ c s) || contains_lower part s

abbrev pub gzip_name : List ℕ
gzip_name = b'g' ∷ b'z' ∷ b'i' ∷ b'p' ∷ []

-- GZIP_MIN
abbrev pub gzip_min : ℕ
gzip_min = 1024

-- The response as it is written: `gzipped` stands for the headers Content-Encoding and Vary.
pub record Response : Type 0 where
  pub code : ℕ
  pub content_type : String
  pub gzipped : Bool
  pub content_length : ℕ
  pub body : List ℕ

-- `"gzip" in (self.headers.get("Accept-Encoding") or "").lower()`
unfoldable pub takes_gzip : Option String → Bool
unfolding contains_lower
takes_gzip none = false
takes_gzip (some header) = contains_lower gzip_name header

-- `compress` is `gzip.compress` at level 6 and with no time stamp.
unfoldable pub send : (compress : List ℕ → List ℕ) → Option String → ℕ → String → List ℕ → Response
unfolding takes_gzip
send compress accept code content_type body =
    let encoded = leb gzip_min (length body) && takes_gzip accept in
    let sent = if encoded then compress body else body in
    record {
      code = code;
      content_type = content_type;
      gzipped = encoded;
      content_length = length sent;
      body = sent;
    }
