-- ===== src/Base/Act.antt =====
-- Code that acts on a state and may raise. What it wrote before it raised stays written.
pub mod Keeps
pub mod Leaves
pub mod Succeeds
use runboard_lcp.Base.{Option, none, some}
use runboard_lcp.Base.Run.{Run}
use runboard_lcp.Base.Try.{Error, Try, ok, raised}

abbrev pub Act {ℓ} : Type ℓ → Type ℓ → Type ℓ
Act S A = S → Try A × S

module _ {ℓ} {S A B : Type ℓ} where
  abbrev pub continue : Try A → (A → Act S B) → Act S B
  continue (ok a) f s = f a s
  continue (raised e) f s = (raised e, s)

  infixl 5 ◌>>=◌ ◌>>◌
  abbrev pub ◌>>=◌ : Act S A → (A → Act S B) → Act S B
  ◌>>=◌ m f s = let (r, t) = m s in continue r f t

  abbrev pub ◌>>◌ : Act S A → Act S B → Act S B
  m >> n = m >>= λ _. n

module _ {ℓ} {S A : Type ℓ} where
  abbrev pub pure : A → Act S A
  pure a s = (ok a, s)

  abbrev pub raise : Error → Act S A
  raise e s = (raised e, s)

  -- `try: m` with the exception as a value.
  abbrev pub capture : Act S A → Act S (Try A)
  capture m s = let (r, t) = m s in (ok r, t)

  abbrev pub reraise : Try A → Act S A
  reraise r s = (r, s)

  abbrev pub gets : (S → A) → Act S A
  gets f s = (ok (f s), s)

-- Branches on an `Option` and on a captured exception, as actions.
module _ {ℓ} {S A B : Type ℓ} where
  abbrev pub match_option : Option B → Act S A → (B → Act S A) → Act S A
  match_option none m f = m
  match_option (some b) m f = f b

  abbrev pub match_try : Try B → (B → Act S A) → (Error → Act S A) → Act S A
  match_try (ok b) f g = f b
  match_try (raised e) f g = g e
