-- ===== src/Dispatcher/Clock.antt =====
-- What the loops that wait for a process rely on of the clock, and the steps of a round under it.
use Prim.Native.Nat.{◌+◌, ◌*◌, ◌≤◌}
use runboard_lcp.Base.{ℕ, String, Bool, true, false, ◌≡◌, refl, arith, if◌then◌else◌}
use runboard_lcp.Base.Act.{pure}
use runboard_lcp.Base.Act.Succeeds.{Ends, Ends-bind, Ends-pure}
use runboard_lcp.Base.Run.{Run}
use runboard_lcp.Dispatcher.Doc.{Doc}
use runboard_lcp.Dispatcher.Eval.{log_tail, tail_of}
use runboard_lcp.Dispatcher.Session.{Session, on_host, modify}
use runboard_lcp.Dispatcher.Status.{set, log}
use runboard_lcp.Dispatcher.Writes.{Writable}
use runboard_lcp.Host.{Host}

-- What is relied on of the clock: it does not run backwards, and it runs on while the process sleeps.
pub record Clock {F : Type 0} (H : Host F) : Type 0 where
  pub clock : H.State → ℕ
  pub reads : (h : H.State) → (H.time h).0 ≡ clock h
  pub on_time : (h : H.State) → clock h ≤ clock (H.time h).1
  pub on_sleep : (n : ℕ) (h : H.State) → clock h + n * 1000 ≤ clock (H.sleep n h).1
  pub on_poll : (h : H.State) → clock h ≤ clock (H.poll h).1
  pub on_read_log : (path : String) (h : H.State) → clock h ≤ clock (H.read_log path h).1
  pub on_count_rows : (run_id : String) (h : H.State) → clock h ≤ clock (H.count_rows run_id h).1
  pub on_disk_usage : (h : H.State) → clock h ≤ clock (H.disk_usage h).1
  pub on_cached_gb : (repo : String) (h : H.State) → clock h ≤ clock (H.cached_gb repo h).1
  pub on_file : (h : H.State) → clock h ≤ clock (H.file_error h).1

module _ {F : Type 0} (H : Host F) (w : Writable H) (c : Clock H) where
  -- The clock shows at least `k`.
  abbrev pub After : ℕ → Session H → Type 0
  After k s = k ≤ c.clock s.host

  pub on_host-After :
      {A : Type 0} (k : ℕ) (m : Run H.State A)
      → ((h : H.State) → c.clock h ≤ c.clock (m h).1)
      → Ends (After k) (on_host H m) (λ _. After k)
  on_host-After k m mono = record {
    at = λ s p. ((m s.host).0, refl, omega (arith, mono s.host, p));
  }

  pub set-After : (k : ℕ) (change : Doc F → Doc F) → Ends (After k) (set H change) (λ _. After k)
  unfolding set
  set-After k change = record {
    at = λ s p. (tt, rw (w s.host) refl, rw (w s.host) (omega (arith, c.on_file s.host, p)));
  }

  pub log-After : (k : ℕ) (line : String) → Ends (After k) (log H line) (λ _. After k)
  unfolding log
  log-After k line =
      Ends-bind (modify H _) _ (record { at = λ s p. (tt, refl, ground arith) })
        (λ _. set-After k (λ doc. doc))

  pub sleep-After : (k n : ℕ) → Ends (After k) (on_host H (H.sleep n)) (λ _. After (k + n * 1000))
  sleep-After k n = record {
    at = λ s p. ((H.sleep n s.host).0, refl, omega (arith, c.on_sleep n s.host, p));
  }

  pub log_tail-After :
      (k : ℕ) (path : String) (n : ℕ) → Ends (After k) (log_tail H path n) (λ _. After k)
  unfolding log_tail
  log_tail-After k path n =
      Ends-bind (on_host H (H.read_log path)) _ (on_host-After k _ (c.on_read_log path))
        λ text. Ends-pure (tail_of H n text) (λ s p. p)

  pub log_unless-After :
      (k : ℕ) (b : Bool) (line : String)
      → Ends (After k) (if b then log H line else pure tt) (λ _. After k)
  log_unless-After k true line = log-After k line
  log_unless-After k false line = Ends-pure tt (λ s p. p)
