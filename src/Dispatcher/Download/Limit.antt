-- ===== src/Dispatcher/Download/Limit.antt =====
-- The loop that waits for a download ends: four hours strike before its fuel is used up.
use Prim.Native.Nat.{◌+◌, ◌*◌, ◌-◌, ◌%◌, ◌≤◌, ◌<◌}
use runboard_lcp.Base.{
  ℕ, zero, suc, String, false, Option, none, some, ◌≡◌, refl, inl, inr, arith, ltb, Bool-cases,
  ◌=ℕ=◌, if◌then◌else◌,
}
use runboard_lcp.Base.Act.{Act, ◌>>=◌, ◌>>◌, pure, raise, match_option}
use runboard_lcp.Base.Act.Succeeds.{Ends, Ends-bind}
use runboard_lcp.Base.Int.{ℤ}
use runboard_lcp.Base.Try.{Try, ok, raised, runtime_error}
use runboard_lcp.Core.Floats.{Floats}
use runboard_lcp.Dispatcher.Clock.{
  Clock, After, on_host-After, set-After, sleep-After, log_unless-After,
}
use runboard_lcp.Dispatcher.Doc.{Doc}
use runboard_lcp.Dispatcher.Download.{report_download, wait_download}
use runboard_lcp.Dispatcher.Session.{Session, Exec, on_host}
use runboard_lcp.Dispatcher.Status.{set}
use runboard_lcp.Dispatcher.Writes.{Writable}
use runboard_lcp.Host.{Host}

-- How the loop ends: with an exit code, or with the exception of the time limit.
pub data Settled : Try (Option ℤ) → Type 0 where
  exited : (r : Try (Option ℤ)) (rc : ℤ) → r ≡ ok (some rc) → Settled r
  exceeded : (r : Try (Option ℤ)) → r ≡ raised (runtime_error "download exceeded 4 h") → Settled r

record Settles {S : Type 0} (P : S → Type 0) (m : Act S (Option ℤ)) : Type 0 where
  at : (s : S) → P s → Settled (m s).0

Settles-bind :
    {S A : Type 0} {P : S → Type 0} {Q : A → S → Type 0} (m : Act S A) (f : A → Act S (Option ℤ))
    → Ends P m Q
    → ((a : A) → Settles (Q a) (f a))
    → Settles P (m >>= f)
Settles-bind m f km kf = record {
  at = λ s p. let (a, e, q) = km.at s p in rw (e, ◌>>=◌) ((kf a).at (m s).1 q);
}

module _ (fl : Floats) (H : Host fl.F) (w : Writable H) (c : Clock H) where
  open fl use {F}

  abbrev At : ℕ → Session H → Type 0
  At = After H w c

  abbrev seen : Option F → Doc F → Doc F
  seen gb doc = record doc { phase = some "download"; downloaded_gb = gb }

  report-After :
      (k : ℕ) (repo : String) (ticks : ℕ)
      → Ends (At k) (report_download fl H repo ticks) (λ _. At k)
  unfolding report_download
  report-After k repo ticks =
      Ends-bind (on_host H (H.cached_gb repo)) _ (on_host-After H w c k _ (c.on_cached_gb repo))
        λ gb. Ends-bind (on_host H H.disk_usage) _ (on_host-After H w c k _ c.on_disk_usage) λ _.
          Ends-bind (set H (seen gb)) _ (set-After H w c k (seen gb))
            λ _. log_unless-After H w c k (ticks % 20 =ℕ= 0) "progress"

  module _ (repo : String) (t0 ticks : ℕ) where
    -- One round behind the poll, at the time `now`.
    abbrev round : ℕ → ℕ → Exec H (Option ℤ)
    round fuel now =
        if ltb (14400 * 1000) (now - t0)
        then (do on_host H H.kill; raise (runtime_error "download exceeded 4 h"))
        else (do
          on_host H (H.sleep 15)
          _ ← report_download fl H repo (ticks + 1)
          wait_download fl H fuel repo t0 (ticks + 1))

    -- Where the limit has not struck, the rounds behind this one settle.
    abbrev Later : ℕ → ℕ → Type 0
    Later fuel k =
        (now : ℕ)
        → ltb (14400 * 1000) (now - t0) ≡ false
        → k ≤ now
        → Settles (At (k + 15000)) (wait_download fl H fuel repo t0 (ticks + 1))

    timed : (k : ℕ) → Ends (At k) (on_host H H.time) (λ now s. (k ≤ now) × At k s)
    timed k = record {
      at = λ s p. (
        (H.time s.host).0,
        refl,
        (omega (arith, c.reads s.host, p), omega (arith, c.on_time s.host, p)),
      );
    }

    killed :
        (k : ℕ)
        → Settles (At k) (do on_host H H.kill; raise (runtime_error "download exceeded 4 h"))
    killed k = record { at = λ s p. exceeded _ refl }

    round-Settles : (fuel k now : ℕ) → Later fuel k → k ≤ now → Settles (At k) (round fuel now)
    round-Settles fuel k now later le = elim (Bool-cases (ltb (14400 * 1000) (now - t0))) [
      | inl over ↦ rw over (killed k)
      | inr under ↦ rw under (
          Settles-bind (on_host H (H.sleep 15)) _ (sleep-After H w c k 15) λ _.
            Settles-bind (report_download fl H repo (ticks + 1)) _
              (report-After (k + 15000) repo (ticks + 1)) λ _. later now under le)
    ]

    polled :
        (fuel k : ℕ)
        → Later fuel k
        → (rc : Option ℤ)
        → Settles
            (At k)
            (match_option rc (do now ← on_host H H.time; round fuel now) (λ r. pure (some r)))
    polled fuel k later (some r) = record { at = λ s p. exited _ r refl }
    polled fuel k later none =
        Settles-bind (on_host H H.time) (round fuel) (timed k)
          (λ now. record { at = λ s (le, p). Settles.at (round-Settles fuel k now later le) s p })

    wait_suc :
        (fuel k : ℕ) → Later fuel k → Settles (At k) (wait_download fl H (suc fuel) repo t0 ticks)
    unfolding wait_download
    wait_suc fuel k later =
        Settles-bind (on_host H H.poll) _ (on_host-After H w c k _ c.on_poll) (polled fuel k later)

  wait-Settles :
      (repo : String) (t0 ticks fuel k : ℕ)
      → t0 + 14400 * 1000 < k + fuel * 15000
      → Settles (At k) (wait_download fl H (suc fuel) repo t0 ticks)
  wait-Settles repo t0 ticks zero k enough =
      wait_suc repo t0 ticks zero k (λ now under le. absurd (ground (arith, under, le, enough)))
  wait-Settles repo t0 ticks (suc fuel) k enough =
      wait_suc repo t0 ticks (suc fuel) k
        (λ now under le. wait-Settles repo t0 (ticks + 1) fuel (k + 15000) (omega arith))

  -- The fuel that the dispatcher is modelled with is enough: where files can be written and sleeping
  -- advances the clock, the loop that waits for a download ends from any session not before its start,
  -- with an exit code or with the exception of the four hours, whatever the process does.
  pub wait_download-settles :
      (repo : String) (t0 ticks : ℕ) (s : Session H)
      → t0 ≤ c.clock s.host
      → Settled (wait_download fl H 14402 repo t0 ticks s).0
  wait_download-settles repo t0 ticks s started =
      Settles.at (wait-Settles repo t0 ticks 14401 t0 (omega arith)) s started
