-- ===== src/Corrected/Overlay.antt =====
-- overlay of corrected_metrics.py. The numbers that it puts into the state are floats.
use runboard_lcp.Base.{String, true, false, Option, none, some, List, [], ◌∷◌}
use runboard_lcp.Base.Assoc.{find_key}
use runboard_lcp.Base.Int.{pos}
use runboard_lcp.Base.Try.{Try, ok, raised, ◌>>=◌, attribute_error}
use runboard_lcp.Corrected.{Digits, Phase, summarize, rolling_aggregate}
use runboard_lcp.Json.{
  Json, Items, Fields, null, bool, int, float, str, arr, obj, nil, cons, end, field, lookup, insert,
}
use runboard_lcp.Json.Falsy.{truthy, items_of}
use runboard_lcp.Metrics.Reals.{Reals}

module _ (rl : Reals) (dg : Digits rl) where
  open rl use {R}

  abbrev float_or_null : Option R → Json R
  float_or_null none = null
  float_or_null (some x) = float x

  -- `p["result"].update(fix)`
  unfoldable pub update_result : Phase rl → Fields R → Fields R
  unfolding insert
  update_result fix d = insert "source" (str "recomputed_from_raw") (
      insert "concurrency" (float fix.concurrency) (
        insert "stream_utilization" (float fix.stream_utilization) (
          insert "scaling_x" (float_or_null fix.scaling_x) (
            insert "per_stream_mean" (float fix.per_stream_mean) (
              insert "aggregate_tok_s" (float fix.aggregate_tok_s) (
                insert "wall_seconds" (float fix.wall_seconds) (
                  insert "total_completion_tokens" (float fix.total_completion_tokens)
                    (insert "requests" (int (pos fix.requests)) d))))))))

  abbrev fix_for : Option (Json R) → List (String × Phase rl) → Option (Phase rl)
  fix_for (some (str name)) phases = find_key name phases
  fix_for name phases = none

  unfoldable pub fix_phase : Option (Phase rl) → Option (Json R) → Fields R → Try (Fields R)
  unfolding update_result insert
  fix_phase (some fix) (some (obj result)) p =
      ok (insert "result" (obj (update_result fix result)) p)
  fix_phase (some fix) (some v) p = raised attribute_error
  fix_phase fix result p = ok p

  -- The loop over the phases of the state.
  unfoldable pub fix_phases : List (String × Phase rl) → Items R → Try (Items R)
  unfolding fix_phase find_key truthy lookup
  fix_phases phases nil = ok nil
  fix_phases phases (cons (obj p) ps) =
      let rest = fix_phases phases ps in
      do
        fixed ←
            fix_phase (fix_for (lookup "name" p) phases) (truthy rl.is_zero (lookup "result" p)) p
        others ← rest
        ok (cons (obj fixed) others)
  fix_phases phases (cons v ps) = raised attribute_error

  -- What is no list is looped over, and stays as it is.
  unfoldable pub fix_state : List (String × Phase rl) → Option (Json R) → Fields R → Try (Fields R)
  unfolding fix_phases items_of insert
  fix_state phases none state = ok state
  fix_state phases (some (arr ps)) state = do
    fixed ← fix_phases phases ps
    ok (insert "phases" (arr fixed) state)
  fix_state phases (some v) state = do ps ← items_of v; fixed ← fix_phases phases ps; ok state

  abbrev not_applied : Json R
  not_applied = obj (field "applied" (bool false) (field "reason" (str "no raw rows yet") end))

  abbrev applied : Json R
  applied = obj (
      field "applied" (bool true) (
        field "note"
          (str
            "aggregate_tok_s = total completion tokens / wall-clock seconds. The runner divided by sum(per-request elapsed), which equals the per-stream mean under concurrency and falls as concurrency rises.")
          end))

  -- overlay, of the rows that are there; where it raises, what it changed before is not kept here.
  unfoldable pub overlay : Fields R → List (Json R) → R → Try (Fields R)
  unfolding summarize rolling_aggregate fix_state insert lookup
  overlay state [] now = ok (insert "correction" not_applied state)
  overlay state (v ∷ vs) now = do
    phases ← summarize rl dg (v ∷ vs)
    total ← rolling_aggregate rl dg now (v ∷ vs)
    let live =
        insert "live_agg_source" (str "recomputed: sum(completion_tokens in last 60s) / 60")
          (insert "live_agg_tps" (float_or_null total) state)
    fixed ← fix_state phases (lookup "phases" live) live
    ok (insert "correction" applied fixed)
