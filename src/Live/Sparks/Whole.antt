-- ===== src/Live/Sparks/Whole.antt =====
-- What cached_sparks serves: never a half of a chart, never another window's.
use runboard_lcp.Base.{
  ℕ, String, Bool, ◌≡◌, refl, ◌⊎◌, inl, inr, true, false, Option, none, some, List, [], ◌∷◌, ◌==◌,
  eq_iff, Bool-cases, arith, if◌then◌else◌,
}
use runboard_lcp.Base.Try.{Try, ok, raised}
use runboard_lcp.Live.Sparks.{
  Spark, KeptSparks, sparks_for, put_sparks, sparks_of, draw_sparks, still_good, fresh, fresh_or,
  keep_drawn, cached_sparks,
}
use runboard_lcp.Live.Spec.{Window}
use runboard_lcp.Metrics.Grid.{Point}
use runboard_lcp.Metrics.Reals.{Reals}

module _ (rl : Reals) (Q : String → List (Spark rl) → Type 0) where
  open rl use {R}

  -- What is kept for each window satisfies `Q` there.
  unfoldable pub AllKept : List (KeptSparks rl) → Type 0
  AllKept [] = Unit {0}
  AllKept (k ∷ ks) = Q k.window k.sparks × AllKept ks

  put_sparks-AllKept :
      (k : KeptSparks rl) (ks : List (KeptSparks rl))
      → Q k.window k.sparks
      → AllKept ks
      → AllKept (put_sparks rl k ks)
  unfolding AllKept put_sparks
  put_sparks-AllKept k [] q all = (q, tt)
  put_sparks-AllKept k (old ∷ ks) q (first, rest) =
      by_name (old.window == k.window) (put_sparks-AllKept k ks q rest)
    where
      by_name :
          (same : Bool)
          → AllKept (put_sparks rl k ks)
          → AllKept (if same then k ∷ ks else old ∷ put_sparks rl k ks)
      by_name true later = (q, rest)
      by_name false later = (first, later)

  -- A window's series, or none at all.
  pub data Good (name : String) (ss : List (Spark rl)) : Type 0 where
    nothing : ss ≡ [] → Good name ss
    whole : Q name ss → Good name ss

  sparks_for-Good :
      (name : String) (ks : List (KeptSparks rl))
      → AllKept ks
      → Good name (sparks_of rl (sparks_for rl name ks))
  unfolding AllKept sparks_for sparks_of
  sparks_for-Good name [] all = nothing refl
  sparks_for-Good name (k ∷ ks) (first, rest) =
      by_name (Bool-cases (k.window == name)) (sparks_for-Good name ks rest)
    where
      by_name :
          ((k.window == name) ≡ true) ⊎ ((k.window == name) ≡ false)
          → Good name (sparks_of rl (sparks_for rl name ks))
          → Good name (sparks_of rl (if k.window == name then some k else sparks_for rl name ks))
      by_name (inl same) later = rw same (whole (rw ((eq_iff k.window name).0 same) at first))
      by_name (inr other) later = rw other later

  -- Both of a result.
  abbrev Served : String → List (Spark rl) × List (KeptSparks rl) → Type 0
  Served name (ss, memory) = Good name ss × AllKept memory

  keep_drawn-Served :
      (name : String) (now : ℕ) (drawn : Try (List (Spark rl))) (ks : List (KeptSparks rl))
      → ((ss : List (Spark rl)) → drawn ≡ ok ss → Q name ss)
      → AllKept ks
      → Served name (keep_drawn rl name now drawn ks)
  unfolding keep_drawn
  keep_drawn-Served name now (raised e) ks q all = (sparks_for-Good name ks all, all)
  keep_drawn-Served name now (ok []) ks q all = (sparks_for-Good name ks all, all)
  keep_drawn-Served name now (ok (s ∷ ss)) ks q all = (
    whole (q (s ∷ ss) refl),
    put_sparks-AllKept (record { window = name; at = now; sparks = s ∷ ss }) ks (q (s ∷ ss) refl)
        all,
  )

  still_good-same :
      (now at : ℕ) (kept ss : List (Spark rl)) → still_good rl now at kept ≡ some ss → ss ≡ kept
  unfolding still_good
  still_good-same now at [] ss h = cc
  still_good-same now at (k ∷ ks) ss h = ground (arith, h)

  fresh-Good :
      (name : String) (now : ℕ) (o : Option (KeptSparks rl)) (ss : List (Spark rl))
      → Good name (sparks_of rl o)
      → fresh rl now o ≡ some ss
      → Good name ss
  unfolding fresh sparks_of
  fresh-Good name now none ss good h = cc
  fresh-Good name now (some k) ss good h = rw (still_good-same now k.at k.sparks ss h) good

  fresh_or-Served :
      (name : String) (o : Option (List (Spark rl))) (ks : List (KeptSparks rl))
      (otherwise : List (Spark rl) × List (KeptSparks rl))
      → ((ss : List (Spark rl)) → o ≡ some ss → Good name ss)
      → AllKept ks
      → Served name otherwise
      → Served name (fresh_or rl o ks otherwise)
  unfolding fresh_or
  fresh_or-Served name none ks otherwise good all served = served
  fresh_or-Served name (some ss) ks otherwise good all served = (good ss refl, all)

  -- Let `Q` hold of the series of each window that is kept, and of whatever is drawn whole for the window
  -- asked for, with its own seconds and step. Then what `cached_sparks` serves is nothing at all, or
  -- satisfies `Q` for the window asked for, and `Q` holds of the series of each window that is kept
  -- after the call.
  pub cached_sparks-Served :
      (asking : ℕ → ℕ → String → Try (List (Point R))) (metrics : List (String × String))
      (w : Window) (now : ℕ) (memory : List (KeptSparks rl))
      → AllKept memory
      → ((ss : List (Spark rl))
          → draw_sparks rl (asking w.seconds w.step) metrics ≡ ok ss
          → Q w.name ss)
      → Good w.name (cached_sparks rl asking metrics w now memory).0
        × AllKept (cached_sparks rl asking metrics w now memory).1
  unfolding cached_sparks
  cached_sparks-Served asking metrics w now memory all drawn =
      fresh_or-Served w.name (fresh rl now (sparks_for rl w.name memory)) memory
        (keep_drawn rl w.name now (draw_sparks rl (asking w.seconds w.step) metrics) memory)
        (λ ss h.
          fresh-Good w.name now (sparks_for rl w.name memory) ss (sparks_for-Good w.name memory all)
            h)
        all
        (keep_drawn-Served w.name now (draw_sparks rl (asking w.seconds w.step) metrics) memory
          drawn all)
