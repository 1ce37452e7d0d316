-- ===== src/Metrics/Recent/Age.antt =====
-- The age that recent tells.
use runboard_lcp.Base.{
  ℕ, ◌-◌, ◌≡◌, refl, ◌∙◌, ap, Bool, true, false, not, ◌&&◌, Option, some, List, [], ◌∷◌, ◌++◌,
  arith,
}
use runboard_lcp.Metrics.Grid.{Point}
use runboard_lcp.Metrics.Reals.{Reals}
use runboard_lcp.Metrics.Recent.{Count, count_step, count_steps, recent_of_count, recent_of}

module _ (rl : Reals) where
  open rl use {R}

  -- No point is higher than the one before it.
  unfoldable pub never_rises : R → List (Point R) → Bool
  never_rises v [] = true
  never_rises v (p ∷ ps) = not (rl.is_pos (rl.sub p.v v)) && never_rises p.v ps

  steady :
      (v : R) (ps : List (Point R)) (c : Count rl)
      → never_rises v ps ≡ true
      → count_steps rl v ps c ≡ c
  unfolding never_rises count_steps count_step
  steady v [] c h = refl
  steady v (p ∷ ps) c h =
      let flat : rl.is_pos (rl.sub p.v v) ≡ false = ground arith in
      rw flat (steady p.v ps c (ground arith))

  rise :
      (v : R) (q : Point R) (c : Count rl)
      → rl.is_pos (rl.sub q.v v) ≡ true
      → (count_step rl v q c).last ≡ some q.t
  unfolding count_step
  rise v q c up = rw up refl

  first_rise :
      (v : R) (q : Point R) (after : List (Point R)) (c : Count rl)
      → rl.is_pos (rl.sub q.v v) ≡ true
      → never_rises q.v after ≡ true
      → (count_steps rl v (q ∷ after) c).last ≡ some q.t
  unfolding count_steps
  first_rise v q after c up h =
      ap (λ c. c.last) (steady q.v after (count_step rl v q c) h) ∙ rise v q c up

  last_rise :
      (v : R) (before : List (Point R)) (p q : Point R) (after : List (Point R)) (c : Count rl)
      → rl.is_pos (rl.sub q.v p.v) ≡ true
      → never_rises q.v after ≡ true
      → (count_steps rl v (before ++ p ∷ q ∷ after) c).last ≡ some q.t
  unfolding count_steps
  last_rise v [] p q after c up h = first_rise p.v q after (count_step rl v p c) up h
  last_rise v (a ∷ before) p q after c up h =
      last_rise a.v before p q after (count_step rl v a c) up h

  age_of :
      (now : ℕ) (sum : R) {o : Option ℕ} {t : ℕ}
      → o ≡ some t
      → (recent_of_count rl now sum o).age ≡ some (now - t)
  unfolding recent_of_count
  age_of now sum h = rw h refl

  -- Where the counter rises from one point to the next and never after, the age is the time since the
  -- later of the two, whatever came before: a fall, as a restart of the engine makes one, is no activity.
  pub recent_of-age :
      (now : ℕ) (before : List (Point R)) (p q : Point R) (after : List (Point R))
      → rl.is_pos (rl.sub q.v p.v) ≡ true
      → never_rises q.v after ≡ true
      → (recent_of rl now (before ++ p ∷ q ∷ after)).age ≡ some (now - q.t)
  unfolding recent_of
  recent_of-age now [] p q after up h = age_of now _ (first_rise p.v q after _ up h)
  recent_of-age now (a ∷ []) p q after up h = age_of now _ (last_rise a.v [] p q after _ up h)
  recent_of-age now (a ∷ b ∷ before) p q after up h =
      age_of now _ (last_rise a.v (b ∷ before) p q after _ up h)
