-- ===== src/Registry/Catalogue/Tokens.antt =====
-- The tokens of serve.sh against the ids of CATALOGUE.
use runboard_lcp.Base.{
  String, ◌≡◌, refl, ◌≢◌, inl, inr, Bool, true, false, ◌&&◌, Option, none, some, List, [], ◌∷◌,
  arith, eq_iff, ◌==◌, if◌then◌else◌, Bool-cases, Option-cases,
}
use runboard_lcp.Registry.Catalogue.{Entry, catalogue, switch_in, switch_value_for}

-- Whether no entry is switched to by the token.
unfoldable is_fresh : Option String → List Entry → Bool
is_fresh none es = true
is_fresh (some token) [] = true
is_fresh (some token) (e ∷ es) =
    let rest = is_fresh (some token) es in
    elim e.switch [ none ↦ rest | some other ↦ if other == token then false else rest ]

unfoldable are_distinct : List Entry → Bool
unfolding is_fresh
are_distinct [] = true
are_distinct (e ∷ es) = is_fresh e.switch es && are_distinct es

switch_in-fresh :
    (es : List Entry) (id token : String)
    → is_fresh (some token) es ≡ true
    → switch_in es id ≢ some token
unfolding switch_in is_fresh
switch_in-fresh [] id token f h = cc
switch_in-fresh (e ∷ es) id token f h = elim (Option-cases e.switch) [
  | inl p ↦ ground (arith, p, f, h, switch_in-fresh es id token)
  | inr (other, p) ↦ ground (arith, p, f, h, eq_iff other token, switch_in-fresh es id token)
]

switch_in-injective :
    (es : List Entry) (a b token : String)
    → are_distinct es ≡ true
    → switch_in es a ≡ some token
    → switch_in es b ≡ some token
    → a ≡ b
unfolding switch_in are_distinct
switch_in-injective [] a b token d p q = cc
switch_in-injective (e ∷ es) a b token d p q = elim (Bool-cases (e.id == a)) [
  | inl x ↦ elim (Bool-cases (e.id == b)) [
    | inl y ↦ ground (arith, eq_iff e.id a, eq_iff e.id b)
    | inr y ↦
        let fresh : is_fresh (some token) es ≡ true = rw (rw x at p) at (first d) in
        absurd (switch_in-fresh es b token fresh (rw y at q))
  ]
  | inr x ↦ elim (Bool-cases (e.id == b)) [
    | inl y ↦
        let fresh : is_fresh (some token) es ≡ true = rw (rw y at q) at (first d) in
        absurd (switch_in-fresh es a token fresh (rw x at p))
    | inr y ↦ switch_in-injective es a b token (others d) (rw x at p) (rw y at q)
  ]
]
  where
    first : (is_fresh e.switch es && are_distinct es) ≡ true → is_fresh e.switch es ≡ true
    first h = ground arith

    others : (is_fresh e.switch es && are_distinct es) ≡ true → are_distinct es ≡ true
    others h = ground arith

distinct : are_distinct catalogue ≡ true
unfolding are_distinct catalogue
distinct = refl

-- Two live engines with the same token of serve.sh are the same one: comparing the tokens of two
-- targets, as the switch and the restore do, compares the engines.
pub switch_value_for-injective :
    (a b token : String) → switch_value_for a ≡ some token → switch_value_for b ≡ some token → a ≡ b
unfolding switch_value_for
switch_value_for-injective a b token p q = switch_in-injective catalogue a b token distinct p q
