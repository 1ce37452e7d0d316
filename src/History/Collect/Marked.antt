-- ===== src/History/Collect/Marked.antt =====
-- The runs that are collected, by their names.
use runboard_lcp.Base.{
  String, ◌≡◌, refl, sym, ap, arith, Bool, true, false, not, Option, none, some, List, [], ◌∷◌,
  length, if◌then◌else◌,
}
use runboard_lcp.Base.Try.{ok, ◌>>=◌, >>=-eq-ok}
use runboard_lcp.Core.JobId.{Texts}
use runboard_lcp.History.Collect.{
  Folder, reason_for, quarantine_reason, collect_folders, Lane, collect_lane, collect_lanes,
  closed_summary_families, lane_run,
}
use runboard_lcp.History.Rates.{Statistics, by_family, dicts_of}
use runboard_lcp.History.Runs.{Run, entry_of_run, collect_run, grades_in}
use runboard_lcp.History.Types.All.{all_of, value_or}
use runboard_lcp.Json.{Fields, Json}
use runboard_lcp.Metrics.Reals.{Reals}
use text.Mathlib.Text.{starts_with}

abbrev pub is_invalid : String → Bool
is_invalid name = starts_with name "INVALID"

abbrev pub is_valid : String → Bool
is_valid name = not (is_invalid name)

abbrev pub is_some : Option String → Bool
is_some none = false
is_some (some s) = true

abbrev pub agrees : Bool → Bool → Bool
agrees true b = b
agrees false b = not b

module _ (rl : Reals) (st : Statistics rl) (t : Texts rl.R) (lower : String → String) where
  open rl use {R}

  -- The reason stands in the runs of the name, and in no others.
  abbrev pub marked : Run rl st t → Bool
  marked r = agrees (is_invalid r.run_id) (is_some r.quarantined)

  collect_run-name :
      (name : String) (summ : Fields R) (rows : List (Json R)) (reason : Option String)
      (r : Run rl st t)
      → collect_run rl st t lower name summ rows reason ≡ ok r
      → (r.run_id ≡ name) × (r.quarantined ≡ reason)
  unfolding collect_run entry_of_run
  collect_run-name name summ rows reason r h =
      let (dicts, d, h1) = >>=-eq-ok (dicts_of rl st rows) _ h in
      let (per_eval, b, h2) =
        >>=-eq-ok (by_family rl st dicts)
          (λ f. grades_in rl st t summ >>= λ gs.
            ok (entry_of_run rl st t lower name summ rows reason f gs))
          h1 in
      let (grades, g, same) =
        >>=-eq-ok (grades_in rl st t summ)
          (λ gs. ok (entry_of_run rl st t lower name summ rows reason per_eval gs)) h2 in
      (sym (ap (λ x. (value_or r x).run_id) same), sym (ap (λ x. (value_or r x).quarantined) same))

  module _ (less : R → R → Bool) where
    abbrev reason : String → Option String
    reason name = if starts_with name "INVALID" then some quarantine_reason else none

    agrees-reason :
        (name : String)
        → agrees (is_invalid name) (is_some (reason_for rl st t lower less name)) ≡ true
    unfolding reason_for
    agrees-reason name = by_name (starts_with name "INVALID")
      where
        by_name :
            (b : Bool) → agrees b (is_some (if b then some quarantine_reason else none)) ≡ true
        by_name true = refl
        by_name false = refl

    pub collect_folders-marked :
        (ds : List (Folder rl st t lower less)) (rs : List (Run rl st t))
        → collect_folders rl st t lower less ds ≡ ok rs
        → (all_of marked rs ≡ true) × (length rs ≡ length ds)
    unfolding collect_folders all_of
    collect_folders-marked [] rs h =
        let none_left : rs ≡ [] = sym (ap (value_or rs) h) in (rw none_left refl, rw none_left refl)
    collect_folders-marked (d ∷ ds) rs h =
        let (r, made, h1) =
          >>=-eq-ok
            (collect_run rl st t lower d.name d.summary d.rows
              (reason_for rl st t lower less d.name))
            (λ r. collect_folders rl st t lower less ds >>= λ rs. ok (r ∷ rs)) h in
        let (rest, others, same) =
          >>=-eq-ok (collect_folders rl st t lower less ds) (λ rs. ok (r ∷ rs)) h1 in
        let (id, reason_is) =
          collect_run-name d.name d.summary d.rows (reason_for rl st t lower less d.name) r made in
        let (all, many) = collect_folders-marked ds rest others in
        let split : rs ≡ r ∷ rest = sym (ap (value_or rs) same) in
        (rw (split, id, reason_is, agrees-reason d.name, all) refl, rw (split, many) refl)

    pub collect_lanes-marked :
        (ls : List (Lane rl st t lower less)) (rs : List (Run rl st t))
        → all_of (λ l. is_valid l.folder.name) ls ≡ true
        → collect_lanes rl st t lower less ls ≡ ok rs
        → (all_of marked rs ≡ true) × (length rs ≡ length ls)
    unfolding collect_lanes collect_lane lane_run all_of
    collect_lanes-marked [] rs names h =
        let none_left : rs ≡ [] = sym (ap (value_or rs) h) in (rw none_left refl, rw none_left refl)
    collect_lanes-marked (l ∷ ls) rs names h =
        let (r, made, h1) =
          >>=-eq-ok (collect_lane rl st t lower less l)
            (λ r. collect_lanes rl st t lower less ls >>= λ rs. ok (r ∷ rs)) h in
        let (rest, others, same) =
          >>=-eq-ok (collect_lanes rl st t lower less ls) (λ rs. ok (r ∷ rs)) h1 in
        let (e, first, h2) =
          >>=-eq-ok (collect_run rl st t lower l.folder.name l.folder.summary l.folder.rows none)
            (λ e. closed_summary_families rl st t lower less l.folder.name l.closed >>= λ merged.
              ok (lane_run rl st t lower less l merged e))
            made in
        let (merged, closed, lane_is) =
          >>=-eq-ok (closed_summary_families rl st t lower less l.folder.name l.closed)
            (λ merged. ok (lane_run rl st t lower less l merged e)) h2 in
        let (id, reason_is) =
          collect_run-name l.folder.name l.folder.summary l.folder.rows none e first in
        let (all, many) = collect_lanes-marked ls rest (ground (arith, names)) others in
        let split : rs ≡ r ∷ rest = sym (ap (value_or rs) same) in
        let made_of : r ≡ lane_run rl st t lower less l merged e = sym (ap (value_or r) lane_is) in
        let valid : is_invalid l.folder.name ≡ false = ground (arith, names) in
        (rw (split, made_of, id, reason_is, valid, all) refl, rw (split, many) refl)
