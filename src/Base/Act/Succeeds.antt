-- ===== src/Base/Act/Succeeds.antt =====
-- Actions that return: they do not raise, in any state. With an invariant, total correctness.
use runboard_lcp.Base.{◌≡◌, refl, Bool, true, false, Option, none, some, if◌then◌else◌}
use runboard_lcp.Base.Act.{Act, ◌>>=◌, ◌>>◌, pure, capture, reraise, gets, match_option, match_try}
use runboard_lcp.Base.Act.Keeps.{Keeps}
use runboard_lcp.Base.Try.{Error, Try, ok, raised}

pub record Succeeds {S A : Type 0} (m : Act S A) : Type 0 where
  pub at : (s : S) → (a : A) × ((m s).0 ≡ ok a)

-- From `P` the action returns, and `Q` holds of what it returns and of the state that it leaves.
pub record Ends {S A : Type 0} (P : S → Type 0) (m : Act S A) (Q : A → S → Type 0) : Type 0 where
  pub at : (s : S) → P s → (a : A) × ((m s).0 ≡ ok a) × Q a (m s).1

module _ {S A : Type 0} where
  pub Succeeds-pure : (a : A) → Succeeds (pure {S = S} a)
  Succeeds-pure a = record { at = λ s. (a, refl) }

  pub Succeeds-gets : (f : S → A) → Succeeds (gets f)
  Succeeds-gets f = record { at = λ s. (f s, refl) }

  pub Succeeds-capture : (m : Act S A) → Succeeds (capture m)
  Succeeds-capture m = record { at = λ s. ((m s).0, refl) }

  pub Succeeds-if :
      (b : Bool) (m n : Act S A) → Succeeds m → Succeeds n → Succeeds (if b then m else n)
  Succeeds-if true m n km kn = km
  Succeeds-if false m n km kn = kn

  pub Succeeds-option :
      {B : Type 0} (o : Option B) (m : Act S A) (f : B → Act S A)
      → Succeeds m
      → ((b : B) → Succeeds (f b))
      → Succeeds (match_option o m f)
  Succeeds-option none m f km kf = km
  Succeeds-option (some b) m f km kf = kf b

  pub Succeeds-try :
      {B : Type 0} (r : Try B) (f : B → Act S A) (g : Error → Act S A)
      → ((b : B) → Succeeds (f b))
      → ((e : Error) → Succeeds (g e))
      → Succeeds (match_try r f g)
  Succeeds-try (ok b) f g kf kg = kf b
  Succeeds-try (raised e) f g kf kg = kg e

module _ {S A B : Type 0} where
  pub Succeeds-bind :
      (m : Act S A) (f : A → Act S B) → Succeeds m → ((a : A) → Succeeds (f a)) → Succeeds (m >>= f)
  Succeeds-bind m f km kf = record {
    at = λ s. let (a, e) = km.at s in let (b, e') = (kf a).at (m s).1 in (b, rw (e, ◌>>=◌) e');
  }

  pub Ends-bind :
      {P : S → Type 0} {Q : A → S → Type 0} {R : B → S → Type 0} (m : Act S A) (f : A → Act S B)
      → Ends P m Q
      → ((a : A) → Ends (Q a) (f a) R)
      → Ends P (m >>= f) R
  Ends-bind m f km kf = record {
    at = λ s p.
        let (a, e, q) = km.at s p in
        let (b, e', r) = (kf a).at (m s).1 q in rw (e, ◌>>=◌) (b, e', r);
  }

  -- try, except and finally: a handler that returns has nothing to raise behind the last block.
  pub Succeeds-finally :
      {C : Type 0} (m : Act S A) (handler : Try A → Act S C) (last : Act S B)
      → ((r : Try A) → Succeeds (handler r))
      → Succeeds last
      → Succeeds
          (do end ← capture m; handled ← capture (handler end); last; reraise handled; pure end)
  Succeeds-finally m handler last kh kl = record {
    at = λ s.
        let (c, e) = (kh (m s).0).at (m s).1 in
        let (b, e') = kl.at (handler (m s).0 (m s).1).1 in ((m s).0, rw (e', e));
  }

module _ {S A : Type 0} where
  pub Ends-pure :
      {P : S → Type 0} {Q : A → S → Type 0} (a : A) → ((s : S) → P s → Q a s) → Ends P (pure a) Q
  Ends-pure a h = record { at = λ s p. (a, refl, h s p) }

  pub Ends-weaken :
      {P : S → Type 0} {Q R : A → S → Type 0} (m : Act S A)
      → Ends P m Q
      → ((a : A) (s : S) → Q a s → R a s)
      → Ends P m R
  Ends-weaken m k h = record { at = λ s p. let (a, e, q) = k.at s p in (a, e, h a _ q) }

  pub Ends-capture :
      {P : S → Type 0} {Q : S → Type 0} (m : Act S A)
      → Ends P m (λ _. Q)
      → Ends P (capture m) (λ _. Q)
  Ends-capture m k = record { at = λ s p. let (a, e, q) = k.at s p in ((m s).0, refl, q) }

  -- An action that returns and keeps `P`.
  pub Ends-keep : {P : S → Type 0} (m : Act S A) → Keeps P m → Succeeds m → Ends P m (λ _. P)
  Ends-keep m k t = record { at = λ s p. let (a, e) = t.at s in (a, e, k.at s p) }

pub ruleset succeeds_rules = (
  Succeeds-pure, Succeeds-gets, Succeeds-capture, Succeeds-if, Succeeds-option, Succeeds-try,
  Succeeds-bind,
)
