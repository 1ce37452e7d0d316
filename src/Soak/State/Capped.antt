-- ===== src/Soak/State/Capped.antt =====
-- Lists that append_capped fills, of load_soak.py.
use runboard_lcp.Base.{
  ℕ, suc, ◌≡◌, ◌∙◌, sym, ap, inl, inr, List, [], ◌∷◌, ◌++◌, ltb, length, last_n, Bool-cases, arith,
  length-append, length-last_n, last_n-short, last_n-snoc,
}
use runboard_lcp.Soak.State.{append_capped}
use Prim.Native.Nat.{min}

module _ {ℓ} {A : Type ℓ} (limit : ℕ) (x : A) where
  pub append_capped-last_n : (xs : List A) → append_capped limit x xs ≡ last_n limit (xs ++ x ∷ [])
  unfolding append_capped
  append_capped-last_n xs = elim (Bool-cases (ltb limit (length (xs ++ x ∷ [])))) [
    | inl long ↦ rw long
    | inr short ↦ rw short (sym (last_n-short limit (xs ++ x ∷ []) (ground arith)))
  ]

  -- A list that holds the last items of another one goes on to hold them.
  pub append_capped-keeps_last :
      (xs ys : List A)
      → ys ≡ last_n limit xs
      → append_capped limit x ys ≡ last_n limit (xs ++ x ∷ [])
  append_capped-keeps_last xs ys h =
      append_capped-last_n ys ∙ ap (λ zs. last_n limit (zs ++ x ∷ [])) h ∙ last_n-snoc limit xs x

  pub length-append_capped :
      (n : ℕ) (xs : List A)
      → length xs ≡ min limit n
      → length (append_capped limit x xs) ≡ min limit (suc n)
  length-append_capped n xs h =
      ap length (append_capped-last_n xs)
      ∙ length-last_n limit (xs ++ x ∷ [])
      ∙ omega (arith, length-append xs (x ∷ []))
