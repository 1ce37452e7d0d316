-- ===== src/History/Collect/Quarantine.antt =====
-- The quarantine: what a contended run is kept out of.
use runboard_lcp.Base.{
  ℕ, suc, ◌+◌, String, ◌≡◌, refl, ◌∙◌, sym, ap, arith, Bool, true, false, ◌&&◌, Option, none, some,
  List, [], ◌∷◌, ◌++◌, length, length-append, contains, if◌then◌else◌,
}
use runboard_lcp.Base.Try.{ok, ◌>>=◌, >>=-eq-ok}
use runboard_lcp.Core.JobId.{Texts}
use runboard_lcp.Dispatcher.Queue.{name_le}
use runboard_lcp.History.Collect.{
  Folder, collect_folders, Lane, collect_lanes, unless_quarantined, if_quarantined, valid_runs,
  bad_runs, insert_run, sort_runs, stamp_of, mark_soak, IndexRow, index_of_families, eval_index,
  History, history_with, history_of, main,
}
use runboard_lcp.History.Rates.{Statistics, EvalFamily}
use runboard_lcp.History.Runs.{Run}
use runboard_lcp.History.Types.{group_eval_types}
use runboard_lcp.History.Types.All.{
  all_of, all_of-append, value_or, run_passes, type_passes, group_eval_types-all,
}
use runboard_lcp.Metrics.Reals.{Reals}
use runboard_lcp.History.Collect.Marked.{
  is_invalid, is_valid, is_some, agrees, marked, collect_folders-marked, collect_lanes-marked,
}

module _ (rl : Reals) (st : Statistics rl) (t : Texts rl.R) (lower : String → String) where
  open rl use {R}

  module _ (less : R → R → Bool) where
    valid_runs-all :
        (rs : List (Run rl st t))
        → all_of (marked rl st t lower) rs ≡ true
        → all_of (run_passes rl st t is_valid) (valid_runs rl st t lower less rs) ≡ true
    unfolding valid_runs all_of
    valid_runs-all [] h = refl
    valid_runs-all (r ∷ rs) h =
        by_reason r.quarantined (ground (arith, h)) (valid_runs-all rs (ground (arith, h)))
      where
        by_reason :
            (o : Option String)
            → agrees (is_invalid r.run_id) (is_some o) ≡ true
            → all_of (run_passes rl st t is_valid) (valid_runs rl st t lower less rs) ≡ true
            → all_of
                (run_passes rl st t is_valid)
                (unless_quarantined rl st t lower less o r (valid_runs rl st t lower less rs))
              ≡ true
        by_reason none m rest = ground (arith, m, rest)
        by_reason (some why) m rest = ground (arith, m, rest)

    bad_runs-all :
        (rs : List (Run rl st t))
        → all_of (marked rl st t lower) rs ≡ true
        → all_of (run_passes rl st t is_invalid) (bad_runs rl st t lower less rs) ≡ true
    unfolding bad_runs all_of
    bad_runs-all [] h = refl
    bad_runs-all (r ∷ rs) h =
        by_reason r.quarantined (ground (arith, h)) (bad_runs-all rs (ground (arith, h)))
      where
        by_reason :
            (o : Option String)
            → agrees (is_invalid r.run_id) (is_some o) ≡ true
            → all_of (run_passes rl st t is_invalid) (bad_runs rl st t lower less rs) ≡ true
            → all_of
                (run_passes rl st t is_invalid)
                (if_quarantined rl st t lower less o r (bad_runs rl st t lower less rs))
              ≡ true
        by_reason none m rest = ground (arith, m, rest)
        by_reason (some why) m rest = ground (arith, m, rest)

    insert_run-all :
        (p : String → Bool) (r : Run rl st t) (qs : List (Run rl st t))
        → all_of (run_passes rl st t p) (insert_run rl st t lower less r qs)
          ≡ (p r.run_id && all_of (run_passes rl st t p) qs)
    unfolding insert_run all_of
    insert_run-all p r [] = refl
    insert_run-all p r (q ∷ qs) =
        by_order
          (name_le (stamp_of rl st t lower less q.timestamp)
            (stamp_of rl st t lower less r.timestamp))
          (insert_run-all p r qs)
      where
        by_order :
            (o : Bool)
            → all_of (run_passes rl st t p) (insert_run rl st t lower less r qs)
              ≡ (p r.run_id && all_of (run_passes rl st t p) qs)
            → all_of
                (run_passes rl st t p)
                (if o then r ∷ q ∷ qs else q ∷ insert_run rl st t lower less r qs)
              ≡ (p r.run_id && (p q.run_id && all_of (run_passes rl st t p) qs))
        by_order true h = refl
        by_order false h = ground (arith, h)

    sort_runs-all :
        (p : String → Bool) (rs : List (Run rl st t))
        → all_of (run_passes rl st t p) (sort_runs rl st t lower less rs)
          ≡ all_of (run_passes rl st t p) rs
    unfolding sort_runs all_of
    sort_runs-all p [] = refl
    sort_runs-all p (r ∷ rs) =
        rw (insert_run-all p r (sort_runs rl st t lower less rs), sort_runs-all p rs) refl

    mark_soak-all :
        (p : String → Bool) (rs : List (Run rl st t))
        → all_of (run_passes rl st t p) (mark_soak rl st t lower less rs)
          ≡ all_of (run_passes rl st t p) rs
    unfolding mark_soak all_of
    mark_soak-all p [] = refl
    mark_soak-all p (r ∷ rs) = by_quant (contains r.quant "deployed") (mark_soak-all p rs)
      where
        by_quant :
            (b : Bool)
            → all_of (run_passes rl st t p) (mark_soak rl st t lower less rs)
              ≡ all_of (run_passes rl st t p) rs
            → all_of
                (run_passes rl st t p)
                ((if b then record r { load_soak = true } else r) ∷ mark_soak rl st t lower less rs)
              ≡ (p r.run_id && all_of (run_passes rl st t p) rs)
        by_quant true h = rw h refl
        by_quant false h = rw h refl

    abbrev pub row_passes : (String → Bool) → IndexRow rl st t lower less → Bool
    row_passes p row = p row.run_id

    index_of_families-all :
        (p : String → Bool) (r : Run rl st t) (ds : List (EvalFamily rl st))
        → p r.run_id ≡ true
        → all_of (row_passes p) (index_of_families rl st t lower less r ds) ≡ true
    unfolding index_of_families all_of
    index_of_families-all p r [] good = refl
    index_of_families-all p r (d ∷ ds) good = rw (good, index_of_families-all p r ds good) refl

    eval_index-all :
        (p : String → Bool) (rs : List (Run rl st t))
        → all_of (run_passes rl st t p) rs ≡ true
        → all_of (row_passes p) (eval_index rl st t lower less rs) ≡ true
    unfolding eval_index all_of
    eval_index-all p [] good = refl
    eval_index-all p (r ∷ rs) good =
        all_of-append (row_passes p) (index_of_families rl st t lower less r r.by_eval_type)
          (eval_index rl st t lower less rs)
        ∙ rw
            (
              index_of_families-all p r r.by_eval_type (ground (arith, good)),
              eval_index-all p rs (ground (arith, good)),
            )
            refl

    -- No run is lost between the two lists.
    split-length :
        (rs : List (Run rl st t))
        → length (valid_runs rl st t lower less rs) + length (bad_runs rl st t lower less rs)
          ≡ length rs
    unfolding valid_runs bad_runs
    split-length [] = refl
    split-length (r ∷ rs) = by_reason r.quarantined (split-length rs)
      where
        by_reason :
            (o : Option String)
            → length (valid_runs rl st t lower less rs) + length (bad_runs rl st t lower less rs)
              ≡ length rs
            → length (unless_quarantined rl st t lower less o r (valid_runs rl st t lower less rs))
                + length (if_quarantined rl st t lower less o r (bad_runs rl st t lower less rs))
              ≡ suc (length rs)
        by_reason none h = omega (arith, h)
        by_reason (some why) h = omega (arith, h)

    insert_run-length :
        (r : Run rl st t) (qs : List (Run rl st t))
        → length (insert_run rl st t lower less r qs) ≡ suc (length qs)
    unfolding insert_run
    insert_run-length r [] = refl
    insert_run-length r (q ∷ qs) =
        by_order
          (name_le (stamp_of rl st t lower less q.timestamp)
            (stamp_of rl st t lower less r.timestamp))
          (insert_run-length r qs)
      where
        by_order :
            (o : Bool)
            → length (insert_run rl st t lower less r qs) ≡ suc (length qs)
            → length (if o then r ∷ q ∷ qs else q ∷ insert_run rl st t lower less r qs)
              ≡ suc (suc (length qs))
        by_order true h = refl
        by_order false h = omega (arith, h)

    sort_runs-length :
        (rs : List (Run rl st t)) → length (sort_runs rl st t lower less rs) ≡ length rs
    unfolding sort_runs
    sort_runs-length [] = refl
    sort_runs-length (r ∷ rs) =
        insert_run-length r (sort_runs rl st t lower less rs) ∙ ap suc (sort_runs-length rs)

    mark_soak-length :
        (rs : List (Run rl st t)) → length (mark_soak rl st t lower less rs) ≡ length rs
    unfolding mark_soak
    mark_soak-length [] = refl
    mark_soak-length (r ∷ rs) = ap suc (mark_soak-length rs)

    -- What is published of the runs, with the quarantined ones kept apart.
    pub record KeptApart (n : ℕ) (h : History rl st t lower less) : Type 0 where
      pub runs_valid : all_of (run_passes rl st t is_valid) h.runs ≡ true
      pub index_valid : all_of (row_passes is_valid) h.eval_type_index ≡ true
      pub types_valid : all_of (type_passes rl st t is_valid) h.eval_types ≡ true
      pub quarantined_invalid : all_of (run_passes rl st t is_invalid) h.quarantined ≡ true
      pub none_lost : length h.runs + length h.quarantined ≡ n

    history_of-KeptApart :
        (runs : List (Run rl st t)) (h : History rl st t lower less)
        → all_of (marked rl st t lower) runs ≡ true
        → history_of rl st t lower less runs ≡ ok h
        → KeptApart (length runs) h
    unfolding history_of history_with
    history_of-KeptApart runs h all made =
        let valid =
          mark_soak rl st t lower less
            (sort_runs rl st t lower less (valid_runs rl st t lower less runs)) in
        let (types, grouped, same) =
          >>=-eq-ok (group_eval_types rl st t less valid)
            (λ ts. ok (history_with rl st t lower less valid (bad_runs rl st t lower less runs) ts))
            made in
        let good : all_of (run_passes rl st t is_valid) valid ≡ true =
          mark_soak-all is_valid (sort_runs rl st t lower less (valid_runs rl st t lower less runs))
          ∙ sort_runs-all is_valid (valid_runs rl st t lower less runs)
          ∙ valid_runs-all runs all in
        let published : h
            ≡ history_with rl st t lower less valid (bad_runs rl st t lower less runs) types =
          sym (ap (value_or h) same) in
        rw published (record {
          runs_valid = good;
          index_valid = eval_index-all is_valid valid good;
          types_valid = group_eval_types-all rl st t is_valid less valid types good grouped;
          quarantined_invalid = bad_runs-all runs all;
          none_lost =
              ap (λ n. n + length (bad_runs rl st t lower less runs))
                (mark_soak-length
                    (sort_runs rl st t lower less (valid_runs rl st t lower less runs))
                  ∙ sort_runs-length (valid_runs rl st t lower less runs))
              ∙ split-length runs;
        })

    -- A contended run is kept out of every comparison. Let `main` make the index of the directories of the
    -- runs and of lanes whose names do not begin with INVALID. Then no run whose name begins with INVALID is
    -- among the valid runs, in the flat index, or among the results of an eval type; all quarantined runs
    -- have such a name; and the two lists together are as long as the directories and the lanes.
    pub main-KeptApart :
        (folders : List (Folder rl st t lower less)) (lanes : List (Lane rl st t lower less))
        (h : History rl st t lower less)
        → all_of (λ l. is_valid l.folder.name) lanes ≡ true
        → main rl st t lower less folders lanes ≡ ok h
        → KeptApart (length folders + length lanes) h
    unfolding main
    main-KeptApart folders lanes h names made =
        let (runs, first, h1) =
          >>=-eq-ok (collect_folders rl st t lower less folders)
            (λ runs. collect_lanes rl st t lower less lanes >>= λ deployed.
              history_of rl st t lower less (runs ++ deployed))
            made in
        let (deployed, second, h2) =
          >>=-eq-ok (collect_lanes rl st t lower less lanes)
            (λ deployed. history_of rl st t lower less (runs ++ deployed)) h1 in
        let (runs_marked, many) = collect_folders-marked rl st t lower less folders runs first in
        let (lanes_marked, more) =
          collect_lanes-marked rl st t lower less lanes deployed names second in
        let all : all_of (marked rl st t lower) (runs ++ deployed) ≡ true =
          all_of-append (marked rl st t lower) runs deployed
          ∙ rw (runs_marked, lanes_marked) refl in
        let apart = history_of-KeptApart (runs ++ deployed) h all h2 in
        let total : length (runs ++ deployed) ≡ length folders + length lanes =
          length-append runs deployed ∙ rw (many, more) refl in
        rw total at apart
