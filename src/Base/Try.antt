-- ===== src/Base/Try.antt =====
-- Python's exceptions as values: a function that may raise returns a `Try`.
use runboard_lcp.Base.{String, ◌≡◌, refl}

pub data Error : Type 0 where
  type_error attribute_error value_error : Error
  key_error os_error runtime_error : String → Error

pub data Try {ℓ} (A : Type ℓ) : Type ℓ where
  ok : A → Try A
  raised : Error → Try A

module _ {ℓ κ} {A : Type ℓ} {B : Type κ} where
  infixl 5 ◌>>=◌
  abbrev pub ◌>>=◌ : Try A → (A → Try B) → Try B
  ok a >>= next = next a
  raised e >>= next = raised e

  -- A chain that returns `b`: its first part returned, and so did the rest on what that gave.
  pub >>=-eq-ok :
      (first : Try A) (next : A → Try B) {b : B} (returns : first >>= next ≡ ok b)
      → (a : A) × (first ≡ ok a) × (next a ≡ ok b)
  >>=-eq-ok (raised e) next returns = cc
  >>=-eq-ok (ok a) next returns = (a, refl, returns)
