-- ===== src/Server/Get/Gate.antt =====
-- What the reads say of the writes, and the bounds on a search.
use Prim.Native.Nat.{◌≤◌}
use runboard_lcp.Base.{
  ℕ, String, Bool, true, false, Option, none, some, ◌≡◌, refl, ap, ◌⊎◌, inl, inr, arith, Bool-cases,
  is_empty, strip,
}
use runboard_lcp.Base.Int.{ℤ, pos, negsuc, between}
use runboard_lcp.Base.Try.{Try, ok, raised, >>=-eq-ok}
use runboard_lcp.Core.Floats.{Floats}
use runboard_lcp.Core.JobId.{Texts}
use runboard_lcp.Core.Token.{read_token, token_ok}
use runboard_lcp.Host.{Host}
use runboard_lcp.Server.Desk.{Desk, auth_log}
use runboard_lcp.Server.Get.{
  Query, TokenCheck, check_token, argument, clamp, clamp_or, search_limit, search_answer,
  search_results,
}
use runboard_lcp.Server.Post.{
  Request, not_configured, unauthorized, is_route, length_of, max_body, with_body, with_token,
  do_post, parse_int,
}

clamp-le : (n : ℤ) → (1 ≤ clamp n) × (clamp n ≤ 40)
unfolding clamp
clamp-le (pos n) = (ground arith, ground arith)
clamp-le (negsuc n) = (omega arith, omega arith)

limit-le : (n : Option ℤ) → (1 ≤ clamp_or n) × (clamp_or n ≤ 40)
limit-le none = (omega arith, omega arith)
limit-le (some n) = clamp-le n

-- A search that is made asks the Hub for 1 to 40 results, whatever limit the request names.
pub search_limit-le :
    (q : Query) (query : String) (n : ℕ)
    → search_answer q ≡ search_results query n
    → (1 ≤ n) × (n ≤ 40)
unfolding search_answer search_limit
search_limit-le q query n e = elim (Bool-cases (is_empty (strip (argument "q" "" q)))) [
  | inl p ↦ absurd (ground arith)
  | inr p ↦
      let same : n ≡ clamp_or (parse_int (argument "limit" "12" q)) = ground arith in
      rw same (limit-le (parse_int (argument "limit" "12" q)))
]

module _ (fl : Floats) (t : Texts fl.F) (H : Host fl.F) where
  open fl use {F}

  abbrev says : Try TokenCheck → Bool
  says (ok c) = c.is_ok
  says (raised e) = false

  agrees :
      (q : Request F) (s : Desk H) (want : Option String) (allowed : Bool)
      → token_ok want q.authorization ≡ ok allowed
      → (allowed ≡ true → with_token fl t H q want s ≡ with_body fl t H q q.body s)
        × (allowed ≡ false
            → ((with_token fl t H q want s).0 ≡ ok not_configured)
              ⊎ ((with_token fl t H q want s).0 ≡ ok unauthorized))
  unfolding token_ok with_token auth_log
  agrees q s none allowed e = (λ h. cc, λ h. inl refl)
  agrees q s (some want) true e = (λ h. rw e refl, λ h. cc)
  agrees q s (some want) false e = (λ h. cc, λ h. inr (rw e refl))

  -- /api/token/check tells what a write would meet: for a request to a write route with a body of an
  -- allowed length, where it says ok the request goes on to its body, and where it says not ok
  -- the request is answered with 503 or 401.
  pub check_token-agrees :
      (q : Request F) (s : Desk H) (c : TokenCheck)
      → is_route q.path ≡ true
      → between 1 max_body (length_of q.content_length) ≡ true
      → check_token s.token q.authorization ≡ ok c
      → (c.is_ok ≡ true → do_post fl t H q s ≡ with_body fl t H q q.body s)
        × (c.is_ok ≡ false
            → ((do_post fl t H q s).0 ≡ ok not_configured)
              ⊎ ((do_post fl t H q s).0 ≡ ok unauthorized))
  unfolding do_post check_token
  check_token-agrees q s c route short e =
      let (allowed, a, b) = >>=-eq-ok (token_ok (read_token s.token) q.authorization) _ e in
      let same : allowed ≡ c.is_ok = ap says b in
      rw (route, short) (agrees q s (read_token s.token) c.is_ok (rw same at a))
