-- ===== src/Dispatcher/Eval/Limit.antt =====
-- The loop that waits for the runner ends: its time limit strikes before its fuel is used up.
use Prim.Native.Nat.{◌+◌, ◌*◌, ◌-◌, ◌≤◌, ◌<◌}
use runboard_lcp.Base.{
  ℕ, zero, suc, String, Bool, true, false, Option, none, some, List, [], ◌∷◌, ◌≡◌, refl, inl, inr,
  arith, ltb, Bool-cases, ◌=ℕ=◌, if◌then◌else◌,
}
use runboard_lcp.Base.Act.{◌>>=◌, ◌>>◌, pure, match_option, gets}
use runboard_lcp.Base.Act.Succeeds.{Ends, Ends-bind, Ends-pure}
use runboard_lcp.Base.Int.{ℤ}
use runboard_lcp.Base.Run.{Run}
use runboard_lcp.Base.Try.{ok}
use runboard_lcp.Core.Jobs.{or_else}
use runboard_lcp.Dispatcher.Clock.{
  Clock, After, on_host-After, set-After, sleep-After, log_tail-After, log_unless-After,
}
use runboard_lcp.Dispatcher.Doc.{Doc}
use runboard_lcp.Dispatcher.Eval.{
  log_tail, rows_written, log_row, report_progress, stop_runner, wait_runner, count_marks,
}
use runboard_lcp.Dispatcher.Session.{Session, Exec, on_host}
use runboard_lcp.Dispatcher.Status.{set}
use runboard_lcp.Dispatcher.Writes.{Writable}
use runboard_lcp.Host.{Host}

module _ {F : Type 0} (H : Host F) (w : Writable H) (c : Clock H) where
  rows_written-After :
      (k : ℕ) (run_id : String) → Ends (After H w c k) (rows_written H run_id) (λ _. After H w c k)
  unfolding rows_written
  rows_written-After k run_id =
      Ends-bind (on_host H (H.count_rows run_id)) _
        (on_host-After H w c k _ (c.on_count_rows run_id)) λ n. Ends-pure (or_else n 0) (λ s p. p)

  log_row-After :
      (k : ℕ) (rows : List String) → Ends (After H w c k) (log_row H rows) (λ _. After H w c k)
  unfolding log_row
  log_row-After k [] = Ends-pure tt (λ s p. p)
  log_row-After k (row ∷ rows) =
      Ends-bind (gets (λ s. s.logs)) _ (record { at = λ s p. (s.logs, refl, p) })
        λ logs. log_unless-After H w c k _ _

  abbrev seen : ℕ → List String → Doc F → Doc F
  seen written marked doc = record doc {
    phase = some "eval";
    rows_seen = some (if written =ℕ= 0 then count_marks marked else written);
  }

  report-After :
      (k : ℕ) (path run_id : String)
      → Ends (After H w c k) (report_progress H path run_id) (λ _. After H w c (k + 10000))
  unfolding report_progress
  report-After k path run_id = Ends-bind (on_host H (H.sleep 10)) _ (sleep-After H w c k 10) λ _.
      Ends-bind (log_tail H path 3) _ (log_tail-After H w c _ path 3) λ rows.
        Ends-bind (rows_written H run_id) _ (rows_written-After _ run_id) λ written.
          Ends-bind (log_tail H path 400) _ (log_tail-After H w c _ path 400) λ marked.
            Ends-bind (set H _) _ (set-After H w c _ (seen written marked))
              λ _. log_row-After _ rows

  -- A result, and not the end of the fuel.
  abbrev Returned : Option (Option ℤ × Bool) → Session H → Type 0
  Returned end s = (r : Option ℤ × Bool) × (end ≡ some r)

  on_host-any :
      {A : Type 0} (m : Run H.State A) {P : Session H → Type 0}
      → Ends P (on_host H m) (λ _ _. Unit {0})
  on_host-any m = record { at = λ s p. ((m s.host).0, refl, tt) }

  abbrev killed : Exec H (Option ℤ × Bool)
  killed = do on_host H H.kill; pure (none, true)

  stop_runner-any : (k : ℕ) → Ends (After H w c k) (stop_runner H) (λ _ _. Unit {0})
  unfolding stop_runner
  stop_runner-any k = Ends-bind (on_host H H.terminate) _ (on_host-any H.terminate) λ _.
      Ends-bind (on_host H (H.sleep 10)) _ (on_host-any (H.sleep 10))
        λ _. Ends-bind (on_host H H.poll) _ (on_host-any H.poll) by_code
    where
      by_code :
          (rc : Option ℤ)
          → Ends
              (λ _. Unit {0})
              (match_option rc killed (λ r. pure {A = Option ℤ × Bool} (some r, true)))
              (λ _ _. Unit {0})
      by_code none =
          Ends-bind (on_host H H.kill) (λ _. pure (none, true)) (on_host-any H.kill)
            (λ _. Ends-pure {A = Option ℤ × Bool} (none, true) (λ s p. p))
      by_code (some r) = Ends-pure {A = Option ℤ × Bool} (some r, true) (λ s p. p)

  stopped : (k : ℕ) → Ends (After H w c k) (do end ← stop_runner H; pure (some end)) Returned
  stopped k =
      Ends-bind (stop_runner H) _ (stop_runner-any k)
        (λ end. Ends-pure (some end) (λ s p. (end, refl)))

  module _ (path run_id : String) (t0 timeout : ℕ) where
    -- One round behind the poll, at the time `now`.
    abbrev round : ℕ → ℕ → Exec H (Option (Option ℤ × Bool))
    round fuel now =
        if ltb (timeout * 1000) (now - t0)
        then (do end ← stop_runner H; pure (some end))
        else (do _ ← report_progress H path run_id; wait_runner H fuel path run_id t0 timeout)

    timed : (k : ℕ) → Ends (After H w c k) (on_host H H.time) (λ now s. (k ≤ now) × After H w c k s)
    timed k = record {
      at = λ s p. (
        (H.time s.host).0,
        refl,
        (omega (arith, c.reads s.host, p), omega (arith, c.on_time s.host, p)),
      );
    }

    -- Where the limit has not struck, the rounds behind this one return.
    abbrev Later : ℕ → ℕ → Type 0
    Later fuel k =
        (now : ℕ)
        → ltb (timeout * 1000) (now - t0) ≡ false
        → k ≤ now
        → Ends (After H w c (k + 10000)) (wait_runner H fuel path run_id t0 timeout) Returned

    round-Returned :
        (fuel k now : ℕ) → Later fuel k → k ≤ now → Ends (After H w c k) (round fuel now) Returned
    round-Returned fuel k now later le = elim (Bool-cases (ltb (timeout * 1000) (now - t0))) [
      | inl over ↦ rw over (stopped k)
      | inr under ↦ rw under (
          Ends-bind (report_progress H path run_id) (λ _. wait_runner H fuel path run_id t0 timeout)
            (report-After k path run_id) (λ _. later now under le))
    ]

    polled :
        (fuel k : ℕ)
        → Later fuel k
        → (rc : Option ℤ)
        → Ends
            (After H w c k)
            (match_option rc
              (do now ← on_host H H.time; round fuel now)
              (λ r. pure (some (some r, false))))
            Returned
    polled fuel k later (some r) = Ends-pure (some (some r, false)) (λ s p. ((some r, false), refl))
    polled fuel k later none =
        Ends-bind (on_host H H.time) (round fuel) (timed k)
          (λ now. record { at = λ s (le, p). Ends.at (round-Returned fuel k now later le) s p })

    wait_suc :
        (fuel k : ℕ)
        → Later fuel k
        → Ends (After H w c k) (wait_runner H (suc fuel) path run_id t0 timeout) Returned
    unfolding wait_runner
    wait_suc fuel k later =
        Ends-bind (on_host H H.poll) _ (on_host-After H w c k _ c.on_poll) (polled fuel k later)

    wait-Returned :
        (fuel k : ℕ)
        → t0 + timeout * 1000 < k + fuel * 10000
        → Ends (After H w c k) (wait_runner H (suc fuel) path run_id t0 timeout) Returned
    wait-Returned zero k enough =
        wait_suc zero k (λ now under le. absurd (ground (arith, under, le, enough)))
    wait-Returned (suc fuel) k enough =
        wait_suc (suc fuel) k (λ now under le. wait-Returned fuel (k + 10000) (omega arith))

-- The fuel that the dispatcher is modelled with is enough: where the files can be written and sleeping
-- advances the clock, the loop that waits for the runner returns from any session that is not before
-- its start, with the runner's exit code or after the limit has struck, whatever the runner does.
pub wait_runner-returns :
    {F : Type 0} (H : Host F)
    → Writable H
    → (c : Clock H) → (path run_id : String) (t0 timeout : ℕ) (s : Session H) → t0 ≤ c.clock s.host
    → (end : Option ℤ × Bool) × ((wait_runner H (timeout + 2) path run_id t0 timeout s).0
        ≡ ok (some end))
wait_runner-returns H w c path run_id t0 timeout s started =
    let (end, e, (r, q)) =
      Ends.at (wait-Returned H w c path run_id t0 timeout (timeout + 1) t0 (omega arith)) s
        started in
    let two : timeout + 2 ≡ suc (timeout + 1) = omega arith in (r, rw two (rw q at e))
