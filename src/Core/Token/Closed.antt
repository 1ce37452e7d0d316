-- ===== src/Core/Token/Closed.antt =====
-- Which requests `token_ok` lets through.
use runboard_lcp.Base.{
  String, ◌≡◌, refl, true, false, ◌||◌, ◌↔◌, Option, none, some, arith, eq_iff, is_empty,
  Bool-cases, inl, inr,
}
use runboard_lcp.Base.Try.{ok}
use runboard_lcp.Core.Token.{read_token, bearer, is_ascii, compare_digest, token_ok}

-- The header carries the token of the file: a token that is not empty, in ASCII.
pub record Carries (file header : Option String) : Type 0 where
  pub token : String
  pub in_file : read_token file ≡ some token
  pub in_header : bearer header ≡ token
  pub not_empty : is_empty token ≡ false
  pub in_ascii : is_ascii token ≡ true

compare-true : (a b : String) → compare_digest a b ≡ ok true → (a ≡ b) × (is_ascii b ≡ true)
unfolding compare_digest
compare-true a b h = ground (arith, eq_iff a b)

module _ (file header : Option String) where
  let_through :
      (want : Option String)
      → read_token file ≡ want
      → token_ok want header ≡ ok true
      → Carries file header
  unfolding token_ok
  let_through none p h = cc
  let_through (some want) p h = elim (Bool-cases (is_empty want || is_empty (bearer header))) [
    | inl e ↦ absurd (ground arith)
    | inr e ↦
        let (same, plain) = compare-true (bearer header) want (rw e at h) in
        record {
          token = want;
          in_file = p;
          in_header = same;
          not_empty = ground arith;
          in_ascii = plain;
        }
  ]

  -- A request is let through if and only if its header carries the token that the file holds: with no
  -- file, an empty one or no header, none is.
  pub token_ok-iff-Carries : (token_ok (read_token file) header ≡ ok true) ↔ Carries file header
  unfolding token_ok compare_digest
  token_ok-iff-Carries = (
    let_through (read_token file) refl,
    λ c.
        rw (c.in_file)
          (ground (arith, c.in_header, c.not_empty, c.in_ascii, eq_iff c.token c.token)),
  )
