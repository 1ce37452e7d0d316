-- ===== src/Soak/Worker.antt =====
-- post and the function worker of load_soak.py.
pub mod Logged
use runboard_lcp.Base.{
  ℕ, ◌+◌, ◌*◌, String, Bool, true, false, not, ◌&&◌, Option, none, some, [], ◌∷◌, ◌++◌, ltb,
  if◌then◌else◌,
}
use runboard_lcp.Base.Int.{pos}
use runboard_lcp.Base.Try.{Try, ok, raised, ◌>>=◌, type_error}
use runboard_lcp.Json.{Json, arr, cons}
use runboard_lcp.Json.Falsy.{truthy, get}
use runboard_lcp.Metrics.Reals.{Reals}
use runboard_lcp.Soak.State.{
  Shape, chat_short, code_gen, doc_summary, tool_call, deep_reason, Served, Totals, Tally, Soak,
  append_capped, recent_max,
}

-- WALL_CAP_MIN
abbrev wall_cap_min : ℕ
wall_cap_min = 130

abbrev pub same_shape : Shape → Shape → Bool
same_shape chat_short chat_short = true
same_shape code_gen code_gen = true
same_shape doc_summary doc_summary = true
same_shape tool_call tool_call = true
same_shape deep_reason deep_reason = true
same_shape a b = false

module _ (rl : Reals) where
  open rl use {R}

  -- `int(value)`, which raises on what is no number
  abbrev IntOf : Type 0
  IntOf = Json R → Try R

  -- What post gives: an answer, or a failure with the name of the exception.
  pub data Posted : Type 0 where
    answered :
        (prompt_tokens completion_tokens elapsed : R)
        → (finish_reason : Option (Json R)) → (e2e_tok_s : Option R) → Posted
    failed : (error : String) → (elapsed : R) → Posted

  module _ (int_of : IntOf) where
    abbrev value_or_zero : Option (Json R) → Try R
    value_or_zero none = ok rl.zero
    value_or_zero (some v) = int_of v

    -- `int(usage.get(key) or 0)`, where a usage that is falsy is an empty dict
    unfoldable pub count_under : String → Option (Json R) → Try R
    unfolding truthy get
    count_under key none = ok rl.zero
    count_under key (some usage) = do v ← get key usage; value_or_zero (truthy rl.is_zero v)

    -- `(payload.get("choices") or [{}])[0].get("finish_reason")`
    unfoldable pub finish_reason_of : Option (Json R) → Try (Option (Json R))
    unfolding get
    finish_reason_of none = ok none
    finish_reason_of (some (arr (cons choice more))) = get "finish_reason" choice
    finish_reason_of (some v) = raised type_error

    -- The dict that post returns where nothing raises.
    unfoldable pub read_payload : R → Json R → Try Posted
    unfolding count_under finish_reason_of truthy get
    read_payload seconds payload = do
      u ← get "usage" payload
      let usage = truthy rl.is_zero u
      ct ← count_under "completion_tokens" usage
      pt ← count_under "prompt_tokens" usage
      choices ← get "choices" payload
      fr ← finish_reason_of (truthy rl.is_zero choices)
      ok (answered pt ct seconds fr (if rl.is_pos seconds then some (rl.div ct seconds) else none))

    abbrev posted : String → R → Try Posted → Posted
    posted name late (ok p) = p
    posted name late (raised e) = failed name late

    abbrev read_reply : R → Try (Json R) → Try Posted
    read_reply seconds reply = reply >>= λ payload. read_payload seconds payload

    -- post: `reply` is what the engine answers, parsed, `seconds` what it took, and `name` and `late`
    -- the name of an exception and the time until it.
    unfoldable pub post : String → R → R → Try (Json R) → Posted
    unfolding read_payload
    post name late seconds reply = posted name late (read_reply seconds reply)

  abbrev pub or_new : Option (Tally rl) → Tally rl
  or_new none = record { n = 0; tokens = rl.zero; elapsed = rl.zero }
  or_new (some t) = t

  abbrev pub tally : Served rl → Tally rl → Tally rl
  tally r t = record {
    n = t.n + 1;
    tokens = rl.add t.tokens r.tokens;
    elapsed = rl.add t.elapsed r.elapsed;
  }

  -- `sh = shapes.setdefault(shape, …)`, and the three sums of `sh`
  unfoldable pub add_to_shape :
      Shape → Served rl → (Shape → Option (Tally rl)) → Shape → Option (Tally rl)
  add_to_shape shape r shapes other =
      if same_shape shape other then some (tally r (or_new (shapes other))) else shapes other

  unfoldable pub add_to_totals : Served rl → Totals rl → Totals rl
  add_to_totals r t = record t {
    requests = t.requests + 1;
    completion_tokens = rl.add t.completion_tokens r.tokens;
    elapsed = rl.add t.elapsed r.elapsed;
  }

  -- What a worker does under the lock with a request that was answered.
  unfoldable pub note_served : Shape → Served rl → Soak rl → Soak rl
  unfolding add_to_shape add_to_totals append_capped
  note_served shape r s = record s {
    state = record s.state {
      totals = add_to_totals r s.state.totals;
      shapes = add_to_shape shape r s.state.shapes;
    };
    window = s.window ++ r ∷ [];
    recent = append_capped recent_max r s.recent;
  }

  -- What it does with one that failed.
  unfoldable pub note_failed : Soak rl → Soak rl
  note_failed s = record s {
    state = record s.state {
      totals = record s.state.totals { errors = s.state.totals.errors + 1 };
    };
    errs = s.errs + 1;
  }

  -- The files that a request is written to: requests.jsonl, or errors.jsonl for the first 200 failures
  -- of a phase.
  pub data LogFile : Type 0 where
    in_requests in_errors : LogFile

  unfoldable pub logged_in : Posted → ℕ → Option LogFile
  logged_in (answered p c e f r) errs = some in_requests
  logged_in (failed error e) errs = if ltb errs 200 then some in_errors else none

  -- A worker's step from the answer of post, at the time `now`, to the next request.
  unfoldable pub turn : Shape → R → Posted → Soak rl → Soak rl
  unfolding note_served note_failed
  turn shape now (answered pt ct el fr rate) s =
      note_served shape (record { at = now; tokens = ct; elapsed = el }) s
  turn shape now (failed error el) s = note_failed s

  -- Whether a worker makes another request: `time.time() < deadline`, and not beyond WALL_CAP_MIN.
  unfoldable pub goes_on : R → R → R → Bool
  goes_on now deadline started =
      rl.is_pos (rl.sub deadline now)
      && not (rl.is_pos (rl.sub (rl.sub now started) (rl.of_int (pos (wall_cap_min * 60)))))
