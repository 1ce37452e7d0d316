-- ===== src/Metrics/Block/Stops.antt =====
-- What the card asks Prometheus for once a query has failed.
use runboard_lcp.Base.{String, ◌≡◌, refl, Bool, true, false, Option, List, [], ◌∷◌, ◌++◌}
use runboard_lcp.Base.Try.{Try, raised, Error}
use runboard_lcp.Metrics.Card.{Printer, rates, ask_rate, still}
use runboard_lcp.Metrics.Names.{Rate, Family}
use runboard_lcp.Metrics.Reals.{Reals}
use mathlib.Core.List.{Memᴰ}

module _ (rl : Reals) (pr : Printer rl) where
  open rl use {R}

  stopped :
      (asking other : String → Try (Option R)) (family : Family) (rs : List Rate)
      → rates rl pr asking family false rs ≡ rates rl pr other family false rs
  unfolding rates ask_rate
  stopped asking other family [] = refl
  stopped asking other family (r ∷ rs) = rw (stopped asking other family rs) refl

  -- Once a query has failed no other is made: the items, and how many queries were answered, are the
  -- same whatever Prometheus would say to the later ones.
  pub rates-stop :
      (asking other : String → Try (Option R)) (family : Family) (before : List Rate) (r : Rate)
      (after : List Rate) (prom_ok : Bool) (e : Error)
      → ((q : Rate) → Memᴰ q before → asking q.key ≡ other q.key)
      → asking r.key ≡ raised e
      → other r.key ≡ raised e
      → rates rl pr asking family prom_ok (before ++ r ∷ after)
        ≡ rates rl pr other family prom_ok (before ++ r ∷ after)
  unfolding rates ask_rate
  rates-stop asking other family [] r after true e same a b =
      rw (a, b, stopped asking other family after) refl
  rates-stop asking other family [] r after false e same a b =
      rw (stopped asking other family after) refl
  rates-stop asking other family (q ∷ before) r after true e same a b =
      rw (same q (Memᴰ.head refl)) (
        rw
          (rates-stop asking other family before r after (still rl pr true (other q.key)) e
            (λ k m. same k (Memᴰ.tail m)) a b)
          refl)
  rates-stop asking other family (q ∷ before) r after false e same a b =
      rw (rates-stop asking other family before r after false e (λ k m. same k (Memᴰ.tail m)) a b)
        refl
