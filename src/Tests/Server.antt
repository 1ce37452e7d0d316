-- ===== src/Tests/Server.antt =====
-- Requests to the server, and the theorems on it at concrete inputs.
use runboard_lcp.Base.{
  ℕ, ◌≡◌, refl, ◌⊎◌, true, false, some, List, [], ◌∷◌, length, strip, parse_nat,
}
use runboard_lcp.Base.Int.{between}
use runboard_lcp.Base.Try.{ok}
use runboard_lcp.Core.JobId.{Texts}
use runboard_lcp.Core.Token.{read_token, bearer, token_ok}
use runboard_lcp.Json.{obj}
use runboard_lcp.Server.Desk.{Desk}
use runboard_lcp.Server.Get.{TokenCheck, check_token}
use runboard_lcp.Server.Get.Gate.{check_token-agrees}
use runboard_lcp.Server.Post.{
  Request, not_configured, unauthorized, is_route, length_of, max_body, do_post, with_body,
  parse_int,
}
use runboard_lcp.Server.Post.Guard.{Outcome, do_post-Outcome}
use runboard_lcp.Server.Send.{gzip_min, takes_gzip, send}
use runboard_lcp.Server.Send.ReadsBack.{read_body, send-reads_back}
use runboard_lcp.Tests.{whole, box, eval_job}
use Prim.Native.Nat.{◌≤◌}

abbrev ascii : Texts ℕ
ascii = record { is_alnum = λ c. true; show = λ v. "?" }

abbrev desk : Desk box
desk = record { host = "cruz"; token = some "s3cret"; queue = []; elsewhere = []; auth = [] }

abbrev request : Request ℕ
request = record {
  path = "/api/dispatch";
  content_length = some "20";
  authorization = some "Bearer s3cret";
  body = some (obj eval_job);
  addr = "192.168.1.9";
  stamp = "20260928T101500";
  created = "2026-09-28T10:15:00Z";
}

do_post-Outcome_example :
    Outcome whole ascii box request (some "s3cret") [] [] (do_post whole ascii box request desk).1
do_post-Outcome_example = do_post-Outcome whole ascii box request desk

-- Compressing that puts a byte in front.
abbrev mark : List ℕ → List ℕ
mark bytes = 31 ∷ bytes

abbrev unmark : List ℕ → List ℕ
unmark [] = []
unmark (b ∷ bytes) = bytes

send-reads_back_example :
    let r = send mark (some "gzip") 200 "text/plain" (104 ∷ 105 ∷ []) in
    (read_body unmark r ≡ 104 ∷ 105 ∷ [])
    × (r.content_length ≡ length r.body)
    × (r.gzipped ≡ true → (takes_gzip (some "gzip") ≡ true) × (gzip_min ≤ 2))
send-reads_back_example =
    send-reads_back mark unmark (λ bytes. refl) (some "gzip") 200 "text/plain" (104 ∷ 105 ∷ [])

writes : is_route request.path ≡ true
writes = refl

fits_body : between 1 max_body (length_of request.content_length) ≡ true
unfolding length_of parse_int strip parse_nat
fits_body = refl

abbrev granted : TokenCheck
granted = record { configured = true; presented = true; is_ok = true }

grants : check_token desk.token request.authorization ≡ ok granted
unfolding check_token token_ok read_token bearer strip
grants = refl

check_token-agrees_example :
    (granted.is_ok ≡ true
      → do_post whole ascii box request desk ≡ with_body whole ascii box request request.body desk)
    × (granted.is_ok ≡ false
        → ((do_post whole ascii box request desk).0 ≡ ok not_configured)
          ⊎ ((do_post whole ascii box request desk).0 ≡ ok unauthorized))
check_token-agrees_example =
    check_token-agrees whole ascii box request desk granted writes fits_body grants
