-- ===== src/Server/Send/ReadsBack.antt =====
-- What a client reads of a response.
use Prim.Native.Nat.{◌≤◌}
use runboard_lcp.Base.{ℕ, String, true, Option, List, length, ◌≡◌, refl, arith, if◌then◌else◌}
use runboard_lcp.Server.Send.{Response, gzip_min, takes_gzip, send}

-- A client undoes the encoding that the headers name.
abbrev pub read_body : (decompress : List ℕ → List ℕ) → Response → List ℕ
read_body decompress r = if r.gzipped then decompress r.body else r.body

-- Where decompressing undoes compressing, a client that undoes the encoding that the headers name
-- reads the body that was sent, whatever it accepts; Content-Length is the number of bytes written; and
-- a response is compressed only for a client that takes gzip, from 1024 bytes on.
pub send-reads_back :
    (compress decompress : List ℕ → List ℕ)
    → ((bytes : List ℕ) → decompress (compress bytes) ≡ bytes)
    → (accept : Option String) (code : ℕ) (content_type : String) (body : List ℕ)
    → let r = send compress accept code content_type body in
      (read_body decompress r ≡ body)
      × (r.content_length ≡ length r.body)
      × (r.gzipped ≡ true → (takes_gzip accept ≡ true) × (gzip_min ≤ length body))
unfolding send
send-reads_back compress decompress undo accept code content_type body =
    (ground (arith, undo body), refl, λ h. (ground arith, ground arith))
