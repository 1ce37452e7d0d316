-- ===== src/Json.antt =====
-- The values that `json.loads` makes, over a type `F` of floating-point numbers.
pub mod Falsy
use runboard_lcp.Base.{
  String, ◌≡◌, refl, Bool, Option, none, some, arith, ◌==◌, eq_iff, if◌then◌else◌,
}
use runboard_lcp.Base.Int.{ℤ}

mutual
  pub data Json (F : Type 0) : Type 0 where
    null : Json F
    bool : Bool → Json F
    int : ℤ → Json F
    float : F → Json F
    str : String → Json F
    arr : Items F → Json F
    obj : Fields F → Json F

  pub data Items (F : Type 0) : Type 0 where
    nil : Items F
    cons : Json F → Items F → Items F

  pub data Fields (F : Type 0) : Type 0 where
    end : Fields F
    field : String → Json F → Fields F → Fields F

module _ {F : Type 0} where
  -- `d.get(k)`, with `none` for a missing key.
  unfoldable pub lookup : String → Fields F → Option (Json F)
  lookup k end = none
  lookup k (field j v d) = if j == k then some v else lookup k d

  -- `d[k] = v`: in place, or at the end.
  unfoldable pub insert : String → Json F → Fields F → Fields F
  insert k v end = field k v end
  insert k v (field j w d) = if j == k then field j v d else field j w (insert k v d)

  -- `{k: v for k, v in d.items() if k != key}`
  unfoldable pub without : String → Fields F → Fields F
  without k end = end
  without k (field j v d) = let rest = without k d in if j == k then rest else field j v rest

  pub lookup-insert :
      (k j : String) (v : Json F) (d : Fields F)
      → lookup j (insert k v d) ≡ (if k == j then some v else lookup j d)
  unfolding lookup insert
  lookup-insert k j v end = refl
  lookup-insert k j v (field i w d) =
      ground (arith, eq_iff k j, eq_iff i k, eq_iff i j, lookup-insert k j v d)

  pub lookup-without :
      (k j : String) (d : Fields F) → lookup j (without k d) ≡ (if k == j then none else lookup j d)
  unfolding lookup without
  lookup-without k j end = ground arith
  lookup-without k j (field i v d) =
      ground (arith, eq_iff i k, eq_iff i j, eq_iff k j, lookup-without k j d)
