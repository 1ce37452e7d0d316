-- ===== src/Dispatcher/Writes.antt =====
-- The steps that return wherever the files can be written.
use runboard_lcp.Base.{ℕ, String, Bool, Option, none, some, List, ◌≡◌, refl}
use runboard_lcp.Base.Act.Succeeds.{Succeeds, succeeds_rules}
use runboard_lcp.Base.Run.{Run}
use runboard_lcp.Dispatcher.Doc.{Doc}
use runboard_lcp.Dispatcher.Restore.{record_failure, restore}
use runboard_lcp.Dispatcher.Session.{Session, on_host, touch_file, modify, run}
use runboard_lcp.Dispatcher.Status.{set, log}
use runboard_lcp.Dispatcher.Switch.{run_serve}
use runboard_lcp.Base.Try.{Error}
use runboard_lcp.Host.{Host}

-- No file operation raises.
abbrev pub Writable : {F : Type 0} → Host F → Type 0
Writable H = (h : H.State) → (H.file_error h).0 ≡ none

module _ {F : Type 0} (H : Host F) (w : Writable H) where
  pub on_host-Succeeds : {A : Type 0} (m : Run H.State A) → Succeeds (on_host H m)
  on_host-Succeeds m = record { at = λ s. ((m s.host).0, refl) }

  pub run-Succeeds : (cmd : List String) (timeout : ℕ) → Succeeds (run H cmd timeout)
  unfolding run
  run-Succeeds cmd timeout = record { at = λ s. (_, refl) }

  pub touch_file-Succeeds : Succeeds (touch_file H)
  touch_file-Succeeds = record { at = λ s. (tt, rw (w s.host)) }

  pub modify-Succeeds : (f : Session H → Session H) → Succeeds (modify H f)
  modify-Succeeds f = record { at = λ s. (tt, refl) }

  pub ruleset box_rules =
      (succeeds_rules, on_host-Succeeds, run-Succeeds, touch_file-Succeeds, modify-Succeeds)

  pub set-Succeeds : (change : Doc F → Doc F) → Succeeds (set H change)
  unfolding set
  set-Succeeds change = search box_rules depth 12

  pub log-Succeeds : (line : String) → Succeeds (log H line)
  unfolding log
  log-Succeeds line = search (box_rules, set-Succeeds) depth 12

  pub run_serve-Succeeds : (target : Option String) → Succeeds (run_serve H target)
  unfolding run_serve
  run_serve-Succeeds none = search box_rules
  run_serve-Succeeds (some target) = search box_rules

  pub ruleset writes_rules = (box_rules, set-Succeeds, log-Succeeds, run_serve-Succeeds)

  record_failure-Succeeds : (previous : String) (e : Error) → Succeeds (record_failure H previous e)
  unfolding record_failure
  record_failure-Succeeds previous e = search writes_rules depth 12

  pub restore-Succeeds :
      (explicit_serve : Bool) (previous : String) → Succeeds (restore H explicit_serve previous)
  unfolding restore
  restore-Succeeds explicit_serve previous = search (writes_rules, record_failure-Succeeds) depth 12
