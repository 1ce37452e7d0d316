-- ===== src/Base/Assoc.antt =====
-- A literal `dict` with text keys, such as PRESETS: its entries in order.
use runboard_lcp.Base.{
  String, Bool, true, false, Option, none, some, List, [], ◌∷◌, ◌==◌, if◌then◌else◌,
}

module _ {ℓ} {V : Type ℓ} where
  unfoldable pub find_key : String → List (String × V) → Option V
  find_key k [] = none
  find_key k ((j, v) ∷ d) = if j == k then some v else find_key k d

  unfoldable pub has_key : String → List (String × V) → Bool
  unfolding find_key
  has_key k d = elim (find_key k d) [ none ↦ false | some v ↦ true ]
