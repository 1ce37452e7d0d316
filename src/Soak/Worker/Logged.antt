-- ===== src/Soak/Worker/Logged.antt =====
-- The row of requests.jsonl that a worker of load_soak.py writes.
use runboard_lcp.Base.{ℕ, String, true, Option, none, some}
use runboard_lcp.Base.Int.{pos}
use runboard_lcp.Json.{Json, Fields, null, bool, int, float, str, field, end}
use runboard_lcp.Metrics.Reals.{Reals}
use runboard_lcp.Soak.State.{
  Shape, chat_short, code_gen, doc_summary, tool_call, deep_reason, Served,
}

unfoldable pub shape_name : Shape → String
shape_name chat_short = "chat_short"
shape_name code_gen = "code_gen"
shape_name doc_summary = "doc_summary"
shape_name tool_call = "tool_call"
shape_name deep_reason = "deep_reason"

module _ (rl : Reals) where
  open rl use {R}

  -- What a row says besides the three numbers of the answer
  pub record RowContext : Type 0 where
    pub phase : String
    pub concurrency : ℕ
    pub shape : Shape
    pub max_tokens : ℕ
    pub prompt_tokens : R
    pub finish_reason : Option (Json R)
    pub e2e_tok_s : Option R

  abbrev or_null : Option (Json R) → Json R
  or_null none = null
  or_null (some v) = v

  abbrev rate_or_null : Option R → Json R
  rate_or_null none = null
  rate_or_null (some x) = float x

  -- `rec` of a request that was answered; its counts are written as the numbers that they are.
  unfoldable pub logged_row : RowContext → Served rl → Fields R
  unfolding shape_name
  logged_row c r = field "ts" (float r.at) (
      field "phase" (str c.phase) (
        field "concurrency" (int (pos c.concurrency)) (
          field "shape" (str (shape_name c.shape)) (
            field "max_tokens" (int (pos c.max_tokens)) (
              field "ok" (bool true) (
                field "prompt_tokens" (float c.prompt_tokens) (
                  field "completion_tokens" (float r.tokens) (
                    field "elapsed" (float r.elapsed) (
                      field "finish_reason" (or_null c.finish_reason)
                        (field "e2e_tok_s" (rate_or_null c.e2e_tok_s) end))))))))))
