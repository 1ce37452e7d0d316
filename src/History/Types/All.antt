-- ===== src/History/Types/All.antt =====
-- Tests on the names of runs, through `group_eval_types`.
use runboard_lcp.Base.{
  String, ◌≡◌, refl, ◌∙◌, sym, ap, arith, Bool, true, false, ◌&&◌, List, [], ◌∷◌, ◌++◌, ◌==◌,
  length, leb, if◌then◌else◌,
}
use runboard_lcp.Base.Try.{Try, ok, raised, >>=-eq-ok}
use runboard_lcp.Core.JobId.{Texts}
use runboard_lcp.History.Rates.{Statistics, EvalFamily}
use runboard_lcp.History.Runs.{Run}
use runboard_lcp.History.Types.{
  Quant, EvalType, grade_for, take, quant_with, quant_of, accuracy_of, add_quant, add_families,
  add_runs, comes_first, insert_quant, sort_quants, finished, insert_type, sort_types,
  group_eval_types,
}
use runboard_lcp.Metrics.Reals.{Reals}

-- Whether all of a list pass a test.
unfoldable pub all_of {ℓ} : {A : Type ℓ} → (A → Bool) → List A → Bool
all_of p [] = true
all_of p (x ∷ xs) = p x && all_of p xs

pub all_of-append {ℓ} :
    {A : Type ℓ} (p : A → Bool) (xs ys : List A)
    → all_of p (xs ++ ys) ≡ (all_of p xs && all_of p ys)
unfolding all_of
all_of-append p [] ys = refl
all_of-append p (x ∷ xs) ys = ground (arith, all_of-append p xs ys)

abbrev pub value_or {ℓ} : {A : Type ℓ} → A → Try A → A
value_or other (raised e) = other
value_or other (ok a) = a

module _ (rl : Reals) (st : Statistics rl) (t : Texts rl.R) where
  open rl use {R}

  -- The tests go by the name of the run.
  abbrev pub run_passes : (String → Bool) → Run rl st t → Bool
  run_passes p r = p r.run_id

  abbrev pub quant_passes : (String → Bool) → Quant rl st t → Bool
  quant_passes p q = p q.run_id

  unfoldable pub type_passes : (String → Bool) → EvalType rl st t → Bool
  unfolding all_of
  type_passes p g = all_of (quant_passes p) g.quants

  module _ (p : String → Bool) where
    add_quant-all :
        (r : Run rl st t) (d : EvalFamily rl st) (q : Quant rl st t) (gs : List (EvalType rl st t))
        → p q.run_id ≡ true
        → all_of (type_passes p) gs ≡ true
        → all_of (type_passes p) (add_quant rl st t r d q gs) ≡ true
    unfolding all_of type_passes add_quant
    add_quant-all r d q [] good all = ground (arith, good)
    add_quant-all r d q (g ∷ gs) good all =
        let here : all_of (quant_passes p) g.quants ≡ true = ground (arith, all) in
        let others : all_of (type_passes p) gs ≡ true = ground (arith, all) in
        by_id (g.id == d.id) (all_of-append (quant_passes p) g.quants (q ∷ [])) here others
          (add_quant-all r d q gs good others)
      where
        by_id :
            (same : Bool)
            → all_of (quant_passes p) (g.quants ++ q ∷ [])
              ≡ (all_of (quant_passes p) g.quants && all_of (quant_passes p) (q ∷ []))
            → all_of (quant_passes p) g.quants ≡ true
            → all_of (type_passes p) gs ≡ true
            → all_of (type_passes p) (add_quant rl st t r d q gs) ≡ true
            → all_of (type_passes p) (
                if same
                then record g { quants = g.quants ++ q ∷ [] } ∷ gs
                else g ∷ add_quant rl st t r d q gs)
              ≡ true
        by_id true more here others later = rw (more, here, good, others) refl
        by_id false more here others later = rw (here, later) refl

    quant_of-run_id :
        (r : Run rl st t) (d : EvalFamily rl st) (q : Quant rl st t)
        → quant_of rl st t r d ≡ ok q
        → q.run_id ≡ r.run_id
    unfolding quant_of quant_with
    quant_of-run_id r d q h =
        let grade = grade_for rl st t d.id r.grades in
        let (accuracy, made, same) =
          >>=-eq-ok (accuracy_of rl st t (take rl st t (λ g. g.accuracy_pct) grade))
            (λ a. ok (quant_with rl st t r d grade a)) h in
        sym (ap (λ x. (value_or q x).run_id) same)

    add_families-all :
        (r : Run rl st t) (ds : List (EvalFamily rl st)) (gs hs : List (EvalType rl st t))
        → p r.run_id ≡ true
        → all_of (type_passes p) gs ≡ true
        → add_families rl st t r ds gs ≡ ok hs
        → all_of (type_passes p) hs ≡ true
    unfolding add_families
    add_families-all r [] gs hs good all h = rw (ap (value_or hs) h) at all
    add_families-all r (d ∷ ds) gs hs good all h =
        let (q, made, rest) = >>=-eq-ok (quant_of rl st t r d) _ h in
        add_families-all r ds (add_quant rl st t r d q gs) hs good
          (add_quant-all r d q gs (rw (quant_of-run_id r d q made) good) all) rest

    add_runs-all :
        (rs : List (Run rl st t)) (gs hs : List (EvalType rl st t))
        → all_of (run_passes p) rs ≡ true
        → all_of (type_passes p) gs ≡ true
        → add_runs rl st t rs gs ≡ ok hs
        → all_of (type_passes p) hs ≡ true
    unfolding add_runs all_of
    add_runs-all [] gs hs good all h = rw (ap (value_or hs) h) at all
    add_runs-all (r ∷ rs) gs hs good all h =
        let (more, made, rest) = >>=-eq-ok (add_families rl st t r r.by_eval_type gs) _ h in
        add_runs-all rs more hs (ground (arith, good))
          (add_families-all r r.by_eval_type gs more (ground (arith, good)) all made) rest

    module _ (less : R → R → Bool) where
      insert_quant-all :
          (a : Quant rl st t) (bs : List (Quant rl st t))
          → all_of (quant_passes p) (insert_quant rl st t less a bs)
            ≡ (p a.run_id && all_of (quant_passes p) bs)
      unfolding all_of insert_quant
      insert_quant-all a [] = refl
      insert_quant-all a (b ∷ bs) = by_order (comes_first rl st t less a b) (insert_quant-all a bs)
        where
          by_order :
              (o : Bool)
              → all_of (quant_passes p) (insert_quant rl st t less a bs)
                ≡ (p a.run_id && all_of (quant_passes p) bs)
              → all_of
                  (quant_passes p)
                  (if o then a ∷ b ∷ bs else b ∷ insert_quant rl st t less a bs)
                ≡ (p a.run_id && (p b.run_id && all_of (quant_passes p) bs))
          by_order true h = refl
          by_order false h = ground (arith, h)

      sort_quants-all :
          (qs : List (Quant rl st t))
          → all_of (quant_passes p) (sort_quants rl st t less qs) ≡ all_of (quant_passes p) qs
      unfolding all_of sort_quants
      sort_quants-all [] = refl
      sort_quants-all (q ∷ qs) =
          rw (insert_quant-all q (sort_quants rl st t less qs), sort_quants-all qs) refl

      finished-all :
          (gs : List (EvalType rl st t))
          → all_of (type_passes p) (finished rl st t less gs) ≡ all_of (type_passes p) gs
      unfolding all_of finished type_passes
      finished-all [] = refl
      finished-all (g ∷ gs) = rw (sort_quants-all g.quants, finished-all gs) refl

      insert_type-all :
          (a : EvalType rl st t) (bs : List (EvalType rl st t))
          → all_of (type_passes p) (insert_type rl st t less a bs)
            ≡ (type_passes p a && all_of (type_passes p) bs)
      unfolding all_of insert_type
      insert_type-all a [] = refl
      insert_type-all a (b ∷ bs) =
          by_order (leb (length b.quants) (length a.quants)) (insert_type-all a bs)
        where
          by_order :
              (o : Bool)
              → all_of (type_passes p) (insert_type rl st t less a bs)
                ≡ (type_passes p a && all_of (type_passes p) bs)
              → all_of (type_passes p) (if o then a ∷ b ∷ bs else b ∷ insert_type rl st t less a bs)
                ≡ (type_passes p a && (type_passes p b && all_of (type_passes p) bs))
          by_order true h = refl
          by_order false h = ground (arith, h)

      sort_types-all :
          (gs : List (EvalType rl st t))
          → all_of (type_passes p) (sort_types rl st t less gs) ≡ all_of (type_passes p) gs
      unfolding all_of sort_types
      sort_types-all [] = refl
      sort_types-all (g ∷ gs) =
          rw (insert_type-all g (sort_types rl st t less gs), sort_types-all gs) refl

      -- The eval types are of the runs that they are made of.
      pub group_eval_types-all :
          (rs : List (Run rl st t)) (gs : List (EvalType rl st t))
          → all_of (run_passes p) rs ≡ true
          → group_eval_types rl st t less rs ≡ ok gs
          → all_of (type_passes p) gs ≡ true
      unfolding group_eval_types all_of
      group_eval_types-all rs gs good h =
          let (made, from, same) = >>=-eq-ok (add_runs rl st t rs []) _ h in
          sym (ap (λ x. all_of (type_passes p) (value_or gs x)) same)
          ∙ sort_types-all (finished rl st t less made)
          ∙ finished-all made
          ∙ add_runs-all rs [] made good refl from
