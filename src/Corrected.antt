-- ===== src/Corrected.antt =====
-- corrected_metrics.py: the throughput of the load soak, computed again from its rows.
pub mod Overlay
use runboard_lcp.Base.{
  ℕ, suc, String, Bool, true, false, not, ◌||◌, Option, none, some, List, [], ◌∷◌, ◌++◌, length,
  map, ◌==◌, is_empty, if◌then◌else◌,
}
use runboard_lcp.Base.Assoc.{find_key}
use runboard_lcp.Base.Int.{ℤ, pos}
use runboard_lcp.Base.Try.{Try, ok, raised, type_error, key_error, ◌>>=◌}
use runboard_lcp.Json.{Json, bool, int, float, str, obj, null, arr, Fields, lookup}
use runboard_lcp.Json.Falsy.{is_falsy, truthy, get}
use runboard_lcp.Metrics.Reals.{Reals}
use runboard_lcp.Throughput.Compute.{as_number}

-- WINDOW_S
abbrev pub window_s : ℕ
window_s = 60

module _ (rl : Reals) where
  open rl use {R}

  -- `round_to n x` is `round(x, n)`.
  pub record Digits : Type 0 where
    pub round_to : ℕ → R → R

  -- A row that counts.
  pub record Row : Type 0 where
    pub phase : String
    pub tokens : R
    pub elapsed : R
    pub ts : R
    pub concurrency : Option (Json R)

  abbrev is_false : Option (Json R) → Bool
  is_false (some (bool false)) = true
  is_false v = false

  -- `r[key]` as a number
  unfoldable pub number_at : String → Fields R → Try R
  unfolding lookup as_number
  number_at key d = elim (lookup key d) [ none ↦ raised (key_error key) | some v ↦ as_number rl v ]

  abbrev or_one : Option (Json R) → Try R
  or_one none = ok (rl.of_int (pos 1))
  or_one (some v) = as_number rl v

  abbrev phase_of : Option (Json R) → Option String
  phase_of (some (str s)) = if is_empty s then none else some s
  phase_of v = none

  -- The row with its numbers, which the sums and quotients take. A phase is a text.
  unfoldable pub numbers_of : String → Json R → R → Fields R → Try (Option Row)
  unfolding number_at as_number truthy lookup
  numbers_of phase ct elapsed d = do
    tokens ← as_number rl ct
    ts ← number_at "ts" d
    ok (
        some (record {
          phase = phase;
          tokens = tokens;
          elapsed = elapsed;
          ts = ts;
          concurrency = truthy rl.is_zero (lookup "concurrency" d);
        }))

  unfoldable pub check_row :
      Option (Json R) → Option (Json R) → Option String → Fields R → Try (Option Row)
  unfolding numbers_of as_number
  check_row (some ct) (some el) phase d = do
    elapsed ← as_number rl el
    if rl.is_pos elapsed
        then elim phase [ none ↦ ok none | some p ↦ numbers_of p ct elapsed d ]
        else ok none
  check_row ct el phase d = ok none

  -- The guards on a row.
  unfoldable pub row_of : Json R → Try (Option Row)
  unfolding get check_row truthy lookup
  row_of (obj d) =
      if is_false (lookup "ok" d)
      then ok none
      else check_row (truthy rl.is_zero (lookup "completion_tokens" d))
          (truthy rl.is_zero (lookup "elapsed" d)) (phase_of (lookup "phase" d)) d
  row_of v = do m ← get "ok" v; ok none

  -- `groups.setdefault(phase, []).append(r)`
  unfoldable pub add_row : Row → List (String × List Row) → List (String × List Row)
  add_row r [] = (r.phase, r ∷ []) ∷ []
  add_row r ((p, rs) ∷ groups) =
      let rest = add_row r groups in
      if p == r.phase then (p, rs ++ r ∷ []) ∷ groups else (p, rs) ∷ rest

  unfoldable pub group_rows : List Row → List (String × List Row) → List (String × List Row)
  unfolding add_row
  group_rows [] groups = groups
  group_rows (r ∷ rs) groups = group_rows rs (add_row r groups)

  abbrev cons_row : Option Row → List Row → List Row
  cons_row none rs = rs
  cons_row (some r) rs = r ∷ rs

  unfoldable pub rows_that_count : List (Json R) → Try (List Row)
  unfolding row_of
  rows_that_count [] = ok []
  rows_that_count (v ∷ vs) =
      let rest = rows_that_count vs in do r ← row_of v; rs ← rest; ok (cons_row r rs)

  unfoldable pub sum_of : (Row → R) → R → List Row → R
  sum_of f t [] = t
  sum_of f t (r ∷ rs) = sum_of f (rl.add t (f r)) rs

  unfoldable pub first_start : R → List Row → R
  first_start t [] = t
  first_start t (r ∷ rs) =
      first_start
        (if rl.is_pos (rl.sub t (rl.sub r.ts r.elapsed)) then rl.sub r.ts r.elapsed else t) rs

  unfoldable pub last_end : R → List Row → R
  last_end t [] = t
  last_end t (r ∷ rs) = last_end (if rl.is_pos (rl.sub r.ts t) then r.ts else t) rs

  -- `t_end - t_start`
  unfoldable pub wall_of : Row → List Row → R
  unfolding first_start last_end
  wall_of r rs = rl.sub (last_end r.ts rs) (first_start (rl.sub r.ts r.elapsed) rs)

  pub record Phase : Type 0 where
    pub requests : ℕ
    pub total_completion_tokens : R
    pub wall_seconds : R
    pub aggregate_tok_s : R
    pub per_stream_mean : R
    pub scaling_x : Option R
    pub stream_utilization : R
    pub concurrency : R

  abbrev unless_zero : Bool → R → Option R
  unless_zero true x = none
  unless_zero false x = some x

  module _ (dg : Digits) where
    -- The numbers of a group of rows.
    unfoldable pub phase_numbers : R → Row → List Row → Phase
    unfolding wall_of sum_of
    phase_numbers concurrency r rs =
        let wall = wall_of r rs in
        let tok = sum_of (λ x. x.tokens) rl.zero (r ∷ rs) in
        let mean =
          rl.div (sum_of (λ x. rl.div x.tokens x.elapsed) rl.zero (r ∷ rs))
            (rl.of_int (pos (length (r ∷ rs)))) in
        let busy = sum_of (λ x. x.elapsed) rl.zero (r ∷ rs) in
        record {
          requests = length (r ∷ rs);
          total_completion_tokens = tok;
          wall_seconds = dg.round_to 2 wall;
          aggregate_tok_s = dg.round_to 2 (rl.div tok wall);
          per_stream_mean = dg.round_to 2 mean;
          scaling_x = unless_zero (rl.is_zero mean) (dg.round_to 2 (rl.div (rl.div tok wall) mean));
          stream_utilization = dg.round_to 3 (rl.div busy (rl.mul wall concurrency));
          concurrency = concurrency;
        }

    -- A group whose wall time is not above 0 is left out. The first row of a group gives the concurrency.
    unfoldable pub phases_of : List (String × List Row) → Try (List (String × Phase))
    unfolding phase_numbers
    phases_of [] = ok []
    phases_of ((p, []) ∷ groups) = phases_of groups
    phases_of ((p, r ∷ rs) ∷ groups) =
        let rest = phases_of groups in
        if rl.is_pos (wall_of r rs)
        then (do
          concurrency ← or_one r.concurrency
          phases ← rest
          ok ((p, phase_numbers concurrency r rs) ∷ phases))
        else rest

    unfoldable pub summarize : List (Json R) → Try (List (String × Phase))
    unfolding rows_that_count group_rows phases_of
    summarize rows = do rs ← rows_that_count rows; phases_of (group_rows rs [])

    abbrev pub tokens_or_zero : Option (Json R) → Try (Option R)
    tokens_or_zero none = ok (some rl.zero)
    tokens_or_zero (some v) = do x ← as_number rl v; ok (some x)

    -- `r.get("completion_tokens", 0)` of a row of the last minute; an older one is left out.
    unfoldable pub tokens_since : R → Json R → Try (Option R)
    unfolding number_at get lookup
    tokens_since now (obj d) = do
      ts ← number_at "ts" d
      if rl.is_pos (rl.sub (rl.sub now ts) (rl.of_int (pos window_s)))
          then ok none
          else tokens_or_zero (lookup "completion_tokens" d)
    tokens_since now v = raised type_error

    abbrev pub plus_tokens : R → Option R → R
    plus_tokens t none = t
    plus_tokens t (some x) = rl.add t x

    unfoldable pub sum_since : R → R → List (Json R) → Try R
    unfolding tokens_since
    sum_since now t [] = ok t
    sum_since now t (v ∷ vs) = do x ← tokens_since now v; sum_since now (plus_tokens t x) vs

    -- `none` where there are no rows
    unfoldable pub rolling_aggregate : R → List (Json R) → Try (Option R)
    unfolding sum_since
    rolling_aggregate now [] = ok none
    rolling_aggregate now (v ∷ vs) = do
      tok ← sum_since now rl.zero (v ∷ vs)
      ok (some (dg.round_to 2 (rl.div tok (rl.of_int (pos window_s)))))
