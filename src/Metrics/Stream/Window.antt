-- ===== src/Metrics/Stream/Window.antt =====
-- The samples of a run of readings.
use Prim.Native.Nat.{◌≤◌}
use runboard_lcp.Base.{
  ℕ, zero, suc, ◌-◌, ◌≡◌, refl, ◌∙◌, sym, ap, inl, inr, Option, none, some, List, [], ◌∷◌, ◌++◌,
  length, drop, last_n, length-append, length-drop, drop-append_le, arith, Bool-cases, leb,
}
use runboard_lcp.Metrics.Reals.{Reals}
use runboard_lcp.Metrics.Stream.{max_samples, Reading, Sampler, reset, sample_of, note_reading}
use mathlib.Core.List.{append_assoc, append-nil}

module _ {A : Type 0} where
  drop_one : (n : ℕ) (xs : List A) → drop 1 (drop n xs) ≡ drop (suc n) xs
  drop_one zero xs = refl
  drop_one (suc n) [] = refl
  drop_one (suc n) (x ∷ xs) = drop_one n xs

  cut_full :
      (n : ℕ) (xs : List A) (x : A)
      → 1 ≤ n
      → n ≤ length xs
      → last_n n (last_n n xs ++ x ∷ []) ≡ last_n n (xs ++ x ∷ [])
  cut_full n xs x pos le =
      let k = length xs - n in
      let one : length (drop k xs ++ x ∷ []) - n ≡ 1 =
        omega (arith, length-append (drop k xs) (x ∷ []), length-drop k xs) in
      let all : length (xs ++ x ∷ []) - n ≡ suc k = omega (arith, length-append xs (x ∷ [])) in
      rw (one, all)
        (drop-append_le 1 (drop k xs) (x ∷ []) (omega (arith, length-drop k xs))
          ∙ ap (λ ys. ys ++ x ∷ []) (drop_one k xs)
          ∙ sym (drop-append_le (suc k) xs (x ∷ []) (omega arith)))

  -- Cutting before the next item is added changes nothing.
  last_n-last_n :
      (n : ℕ) (xs : List A) (x : A)
      → 1 ≤ n
      → last_n n (last_n n xs ++ x ∷ []) ≡ last_n n (xs ++ x ∷ [])
  last_n-last_n n xs x pos = elim (Bool-cases (leb n (length xs))) [
    | inl e ↦ cut_full n xs x pos (ground (arith, e))
    | inr e ↦ let short : length xs - n ≡ 0 = ground (arith, e) in rw short refl
  ]

module _ (rl : Reals) where
  open rl use {R}

  abbrev prepend : Option R → List R → List R
  prepend none xs = xs
  prepend (some x) xs = x ∷ xs

  -- The samples of the intervals between successive readings.
  unfoldable pub samples_of : Option (Reading rl) → List (Reading rl) → List R
  samples_of previous [] = []
  samples_of previous (now ∷ rest) =
      prepend (sample_of rl previous now) (samples_of (some now) rest)

  unfoldable pub note_readings : List (Reading rl) → Sampler rl → Sampler rl
  note_readings [] s = s
  note_readings (now ∷ rest) s = note_readings rest (note_reading rl now s)

  from_cut :
      (rs : List (Reading rl)) (previous : Option (Reading rl)) (xs : List R)
      → (note_readings rs (record { previous = previous; samples = last_n max_samples xs })).samples
        ≡ last_n max_samples (xs ++ samples_of previous rs)
  unfolding note_readings note_reading samples_of
  from_cut [] previous xs = rw (append-nil xs) refl
  from_cut (now ∷ rest) previous xs =
      by_sample (sample_of rl previous now) refl (from_cut rest (some now))
    where
      by_sample :
          (o : Option R)
          → sample_of rl previous now ≡ o
          → ((ys : List R)
              → (note_readings rest
                  (record { previous = some now; samples = last_n max_samples ys })).samples
                ≡ last_n max_samples (ys ++ samples_of (some now) rest))
          → (note_readings rest (
              note_reading rl now
                (record { previous = previous; samples = last_n max_samples xs }))).samples
            ≡ last_n max_samples (xs ++ samples_of previous (now ∷ rest))
      by_sample none p later = rw p (later xs)
      by_sample (some y) p later = rw p (
          rw (last_n-last_n max_samples xs y (omega arith)) (
            later (xs ++ y ∷ [])
            ∙ ap (last_n max_samples) (append_assoc xs (y ∷ []) (samples_of (some now) rest))))

  -- The samples are the last 20 of those of all intervals between successive readings since the reset:
  -- an interval gives one where exactly one request finished in it and both counters rose, and none
  -- of these is lost before 20 newer ones stand behind it.
  pub note_single_stream-window :
      (rs : List (Reading rl))
      → (note_readings rs (reset rl)).samples ≡ last_n max_samples (samples_of none rs)
  note_single_stream-window rs = from_cut rs none []
