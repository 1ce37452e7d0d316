-- ===== src/Base/Act/Leaves.antt =====
-- What an action leaves, whether it returns or raises: `Q` from `P`.
use runboard_lcp.Base.Act.{Act, ◌>>=◌, reraise}
use runboard_lcp.Base.Act.Keeps.{Keeps}
use runboard_lcp.Base.Try.{Try, ok, raised}
use runboard_lcp.Base.{◌≡◌, refl}

pub record Leaves {S A : Type 0} (P Q : S → Type 0) (m : Act S A) : Type 0 where
  pub at : (s : S) → P s → Q (m s).1

module _ {S A : Type 0} {P Q : S → Type 0} (weaker : (s : S) → P s → Q s) where
  pub Leaves-keep : (m : Act S A) → Keeps P m → Leaves P Q m
  Leaves-keep m k = record { at = λ s p. weaker _ (k.at s p) }

  module _ {B : Type 0} where
    continued :
        (r : Try B) (f : B → Act S A)
        → ((b : B) → Leaves P Q (f b))
        → (s : S) → P s
        → Q ((reraise r >>= f) s).1
    continued (ok b) f k s p = (k b).at s p
    continued (raised e) f k s p = weaker s p

    pub Leaves-bind :
        (m : Act S B) (f : B → Act S A)
        → Keeps P m
        → ((b : B) → Leaves P Q (f b))
        → Leaves P Q (m >>= f)
    Leaves-bind m f km k = record { at = λ s p. continued (m s).0 f k (m s).1 (km.at s p) }

    -- A computed result, with the equation for what follows.
    pub Leaves-result :
        (r : Try B) (f : B → Act S A)
        → ((b : B) → r ≡ ok b → Leaves P Q (f b))
        → Leaves P Q ((λ s. (r, s)) >>= f)
    Leaves-result (ok b) f k = record { at = λ s p. (k b refl).at s p }
    Leaves-result (raised e) f k = record { at = λ s p. weaker s p }
