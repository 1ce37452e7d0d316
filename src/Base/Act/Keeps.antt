-- ===== src/Base/Act/Keeps.antt =====
-- Invariants of actions: one rule for each way to build an action.
use runboard_lcp.Base.{Bool, true, false, Option, none, some, if◌then◌else◌}
use runboard_lcp.Base.Act.{Act, ◌>>=◌, pure, raise, capture, reraise, gets, match_option, match_try}
use runboard_lcp.Base.Try.{Error, Try, ok, raised}

-- Whether `m` returns or raises, `P` still holds.
pub record Keeps {S A : Type 0} (P : S → Type 0) (m : Act S A) : Type 0 where
  pub at : (s : S) → P s → P (m s).1

module _ {S A : Type 0} {P : S → Type 0} where
  pub Keeps-pure : (a : A) → Keeps P (pure a)
  Keeps-pure a = record { at = λ s h. h }

  pub Keeps-raise : (e : Error) → Keeps P (raise {A = A} e)
  Keeps-raise e = record { at = λ s h. h }

  pub Keeps-reraise : (r : Try A) → Keeps P (reraise r)
  Keeps-reraise r = record { at = λ s h. h }

  pub Keeps-gets : (f : S → A) → Keeps P (gets f)
  Keeps-gets f = record { at = λ s h. h }

  pub Keeps-capture : (m : Act S A) → Keeps P m → Keeps P (capture m)
  Keeps-capture m k = record { at = λ s h. k.at s h }

  pub Keeps-if : (b : Bool) (m n : Act S A) → Keeps P m → Keeps P n → Keeps P (if b then m else n)
  Keeps-if true m n km kn = km
  Keeps-if false m n km kn = kn

  pub Keeps-option :
      {B : Type 0} (o : Option B) (m : Act S A) (f : B → Act S A)
      → Keeps P m
      → ((b : B) → Keeps P (f b))
      → Keeps P (match_option o m f)
  Keeps-option none m f km kf = km
  Keeps-option (some b) m f km kf = kf b

  pub Keeps-try :
      {B : Type 0} (r : Try B) (f : B → Act S A) (g : Error → Act S A)
      → ((b : B) → Keeps P (f b))
      → ((e : Error) → Keeps P (g e))
      → Keeps P (match_try r f g)
  Keeps-try (ok b) f g kf kg = kf b
  Keeps-try (raised e) f g kf kg = kg e

module _ {S A B : Type 0} {P : S → Type 0} where
  Keeps-continue :
      (r : Try A) (f : A → Act S B)
      → ((a : A) → Keeps P (f a))
      → (s : S) → P s
      → P (reraise r s).1
      → P ((reraise r >>= f) s).1
  Keeps-continue (ok a) f kf s h _ = (kf a).at s h
  Keeps-continue (raised e) f kf s h _ = h

  pub Keeps-bind :
      (m : Act S A) (f : A → Act S B) → Keeps P m → ((a : A) → Keeps P (f a)) → Keeps P (m >>= f)
  Keeps-bind m f km kf = record {
    at = λ s h. let (r, t) = m s in Keeps-continue r f kf t (km.at s h) (km.at s h);
  }

pub ruleset keeps_rules = (
  Keeps-pure, Keeps-raise, Keeps-reraise, Keeps-gets, Keeps-capture, Keeps-if, Keeps-option,
  Keeps-try, Keeps-bind,
)
