-- ===== src/Dispatcher/Steady.antt =====
-- Properties of the session that the steps of a job's work keep, whether they return or raise.
pub mod Work
use runboard_lcp.Base.{ℕ, String, Bool, Option, List, [], ◌∷◌, ◌≡◌, arith}
use runboard_lcp.Base.Act.{◌>>=◌, ◌>>◌}
use runboard_lcp.Base.Act.Keeps.{Keeps, keeps_rules, Keeps-bind}
use runboard_lcp.Base.Run.{Run}
use runboard_lcp.Dispatcher.Doc.{Doc, HistoryEntry}
use runboard_lcp.Dispatcher.Session.{Folder, Session, Exec, on_host, touch_file, modify, run}
use runboard_lcp.Dispatcher.Status.{flush, set, log, log_all}
use runboard_lcp.Dispatcher.Switch.{
  busy_in, probe_generation, run_serve, switch_to, do_switch, lift, text_field,
}
use runboard_lcp.Base.{none, some}
use runboard_lcp.Base.Try.{Try}
use runboard_lcp.Json.{Json, Fields}
use runboard_lcp.Host.{Host}

module _ {F : Type 0} (H : Host F) (P : Session H → Type 0) where
  -- `P` does not depend on the box, on the commands run or the files published, nor on what `set` and
  -- `log` write.
  pub record Steady : Type 0 where
    pub on_box : (s : Session H) (h : H.State) → P s → P (record s { host = h })
    pub on_call : (s : Session H) (cmd : List String) → P s → P (record s { calls = cmd ∷ s.calls })
    pub on_publish :
        (s : Session H) (name : String) → P s → P (record s { published = name ∷ s.published })
    pub on_set : (change : Doc F → Doc F) → Keeps P (set H change)
    pub on_log : (line : String) → Keeps P (log H line)

module _ {F : Type 0} (H : Host F) {P : Session H → Type 0} (c : Steady H P) where
  pub on_host-Steady : {A : Type 0} (m : Run H.State A) → Keeps P (on_host H m)
  on_host-Steady m = record { at = λ s p. c.on_box s (m s.host).1 p }

  pub touch_file-Steady : Keeps P (touch_file H)
  touch_file-Steady = record { at = λ s p. c.on_box s (H.file_error s.host).1 p }

  pub call-Steady :
      (cmd : List String) → Keeps P (modify H (λ s. record s { calls = cmd ∷ s.calls }))
  call-Steady cmd = record { at = λ s p. c.on_call s cmd p }

  pub publish-Steady :
      (name : String) → Keeps P (modify H (λ s. record s { published = name ∷ s.published }))
  publish-Steady name = record { at = λ s p. c.on_publish s name p }

  pub run-Steady : (cmd : List String) (timeout : ℕ) → Keeps P (run H cmd timeout)
  unfolding run
  run-Steady cmd timeout = record {
    at = λ s p.
        let h = (H.subprocess cmd timeout s.host).1 in
        c.on_call (record s { host = h }) cmd (c.on_box s h p);
  }

  pub set-Steady : (change : Doc F → Doc F) → Keeps P (set H change)
  set-Steady change = c.on_set change

  pub log-Steady : (line : String) → Keeps P (log H line)
  log-Steady line = c.on_log line

  pub log_all-Steady : (lines : List String) → Keeps P (log_all H lines)
  unfolding log_all
  log_all-Steady [] = search keeps_rules
  log_all-Steady (line ∷ lines) = search (keeps_rules, log-Steady line, log_all-Steady lines)

  pub ruleset steady_rules = (
    keeps_rules, on_host-Steady, touch_file-Steady, call-Steady, publish-Steady, run-Steady,
    set-Steady, log-Steady, log_all-Steady,
  )

  pub lift-Steady : {A : Type 0} (r : Try A) → Keeps P (lift H r)
  lift-Steady r = search keeps_rules

  pub run_serve-Steady : (target : Option String) → Keeps P (run_serve H target)
  unfolding run_serve
  run_serve-Steady none = search steady_rules
  run_serve-Steady (some target) = search steady_rules

  pub probe-Steady : Keeps P (probe_generation H)
  unfolding probe_generation
  probe-Steady = search steady_rules

  switch_to-Steady : (want : Json F) (target : Option String) → Keeps P (switch_to H want target)
  unfolding switch_to
  switch_to-Steady want target = search (steady_rules, run_serve-Steady, probe-Steady) depth 30

  pub do_switch-Steady : (job : Fields F) → Keeps P (do_switch H job)
  unfolding do_switch
  do_switch-Steady job = search (steady_rules, lift-Steady, switch_to-Steady) depth 12

  pub text_field-Steady : (key : String) (job : Fields F) → Keeps P (text_field H key job)
  unfolding text_field
  text_field-Steady key job = record { at = λ s f. ground (arith) }
