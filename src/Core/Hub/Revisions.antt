-- ===== src/Core/Hub/Revisions.antt =====
-- What hf_revisions lists.
use runboard_lcp.Base.{
  String, ◌<>◌, ◌≡◌, refl, ◌∙◌, inl, inr, Bool, true, false, not, ◌&&◌, ◌||◌, Option, none, some,
  List, [], ◌∷◌, ◌++◌, ◌==◌, arith, eq_iff, Bool-cases,
}
use runboard_lcp.Base.Try.{ok, ◌>>=◌, >>=-eq-ok}
use runboard_lcp.Core.Floats.{Floats}
use runboard_lcp.Core.Hub.{Hub, is_in, revision_name, add_name, add_names, hf_get, hf_revisions}
use runboard_lcp.Json.{Json, Items, nil, cons}
use runboard_lcp.Json.Falsy.{get, items_or_none}

-- No name stands twice.
unfoldable pub all_distinct : List String → Bool
all_distinct [] = true
all_distinct (x ∷ xs) = not (is_in xs x) && all_distinct xs

is_in-append :
    (xs ys : List String) (name : String) → is_in (xs ++ ys) name ≡ (is_in xs name || is_in ys name)
is_in-append [] ys name = refl
is_in-append (x ∷ xs) ys name = ground (arith, is_in-append xs ys name)

all_distinct-snoc :
    (xs : List String) (name : String)
    → all_distinct xs ≡ true
    → is_in xs name ≡ false
    → all_distinct (xs ++ name ∷ []) ≡ true
unfolding all_distinct
all_distinct-snoc [] name d h = refl
all_distinct-snoc (x ∷ xs) name d h = ground (
  arith,
  eq_iff x name,
  eq_iff name x,
  is_in-append xs (name ∷ []) x,
  all_distinct-snoc xs name (ground arith) (ground arith),
)

module _ (fl : Floats) (h : Hub fl) where
  open fl use {F}

  add_name-distinct :
      (o : Option String) (names : List String)
      → all_distinct names ≡ true
      → all_distinct (add_name fl h o names) ≡ true
  unfolding add_name
  add_name-distinct none names d = d
  add_name-distinct (some name) names d = elim (Bool-cases (is_in names name)) [
    | inl e ↦ rw e d
    | inr e ↦ rw e (all_distinct-snoc names name d e)
  ]

  add_names-distinct :
      (items : Items F) (names : List String)
      → all_distinct names ≡ true
      → all_distinct (add_names fl h items names) ≡ true
  unfolding add_names
  add_names-distinct nil names d = d
  add_names-distinct (cons item items) names d =
      add_names-distinct items _ (add_name-distinct (revision_name fl h item) names d)

  abbrev is_name : Option String → String → Bool
  is_name none name = false
  is_name (some n) name = n == name

  -- Whether an item of the list has the name.
  unfoldable pub is_named : Items F → String → Bool
  is_named nil name = false
  is_named (cons item items) name = is_name (revision_name fl h item) name || is_named items name

  is_in-add_name :
      (o : Option String) (names : List String) (name : String)
      → is_in (add_name fl h o names) name ≡ (is_in names name || is_name o name)
  unfolding add_name
  is_in-add_name none names name = ground arith
  is_in-add_name (some n) names name = elim (Bool-cases (is_in names n)) [
    | inl e ↦ elim (Bool-cases (n == name)) [
      | inl same ↦
          let known : is_in names name ≡ true = ground (arith, eq_iff n name) in
          rw (e, same) (ground arith)
      | inr other ↦ rw (e, other) (ground arith)
    ]
    | inr e ↦ rw e (is_in-append names (n ∷ []) name ∙ ground arith)
  ]

  is_in-add_names :
      (items : Items F) (names : List String) (name : String)
      → is_in (add_names fl h items names) name ≡ (is_in names name || is_named items name)
  unfolding add_names is_named
  is_in-add_names nil names name = ground arith
  is_in-add_names (cons item items) names name = ground (
    arith,
    is_in-add_names items (add_name fl h (revision_name fl h item) names) name,
    is_in-add_name (revision_name fl h item) names name,
  )

  -- Where the Hub answers with branches and tags, the revisions are the names of both, each once.
  pub hf_revisions-lists :
      (repo : String) (refs : Json F) (branches tags : Items F)
      → hf_get fl h ("/api/models/" <> repo <> "/refs") [] ≡ ok refs
      → get "branches" refs >>= items_or_none h.is_zero ≡ ok branches
      → get "tags" refs >>= items_or_none h.is_zero ≡ ok tags
      → (names : List String) × (hf_revisions fl h repo ≡ ok names)
        × (all_distinct names ≡ true)
        × ((name : String) → is_in names name ≡ (is_named branches name || is_named tags name))
  unfolding hf_revisions all_distinct is_named
  hf_revisions-lists repo refs branches tags answer b t =
      let (x, b0, b1) = >>=-eq-ok (get "branches" refs) _ b in
      let (y, t0, t1) = >>=-eq-ok (get "tags" refs) _ t in
      let first = add_names fl h branches [] in
      (
        add_names fl h tags first,
        rw (answer, b0, b1, t0, t1) refl,
        add_names-distinct tags first (add_names-distinct branches [] refl),
        λ name. ground (arith, is_in-add_names tags first name, is_in-add_names branches [] name),
      )
