-- ===== src/Dispatcher/Session.antt =====
-- The state that the dispatcher works on, and its actions: code that may raise, and that keeps what
-- it wrote before it raised.
use runboard_lcp.Base.{ℕ, String, ◌<>◌, Option, none, some, List, ◌∷◌}
use runboard_lcp.Base.Act.{Act}
use runboard_lcp.Base.Int.{ℤ, pos}
use runboard_lcp.Base.Run.{Run}
use runboard_lcp.Base.Try.{
  Error, ok, raised, type_error, attribute_error, value_error, key_error, os_error, runtime_error,
}
use runboard_lcp.Dispatcher.Doc.{Doc, HistoryEntry}
use runboard_lcp.Host.{Host, Spawn, completed, timed_out, not_started}
use runboard_lcp.Json.{Json}

-- A folder of job files: names with the value that the text parses to, `none` where it does not.
abbrev pub Folder : Type 0 → Type 0
Folder F = List (String × Option (Json F))

-- `host` is the box; `queue`, `done`, `history` and `status` are the files; `published`
-- names the links made under the runs folder; `doc` and `logs` are the fields of the `Status` object;
-- `calls` are the commands that `run` and `subprocess.Popen` of dispatcher.py were called with so far, the
-- newest first; the probes of registry.py are not among them.
pub record Session {F : Type 0} (H : Host F) : Type 0 where
  pub host : H.State
  pub queue : Folder F
  pub done : Folder F
  pub history : Option (List (HistoryEntry F))
  pub status : Option (Doc F)
  pub published : List String
  pub doc : Doc F
  pub logs : List String
  pub calls : List (List String)

-- `f"{type(exc).__name__}: {exc}"`
unfoldable pub show_error : Error → String
show_error type_error = "TypeError"
show_error attribute_error = "AttributeError"
show_error value_error = "ValueError"
show_error (key_error k) = "KeyError: " <> k
show_error (os_error t) = "OSError: " <> t
show_error (runtime_error t) = "RuntimeError: " <> t

module _ {F : Type 0} (H : Host F) where
  abbrev pub Exec : Type 0 → Type 0
  Exec A = Act (Session H) A

  -- What the box does.
  abbrev pub on_host : {A : Type 0} → Run H.State A → Exec A
  on_host m s = let (a, h) = m s.host in (ok a, record s { host = h })

  -- A file operation, which may raise.
  abbrev pub touch_file : Exec (Unit {0})
  touch_file s =
      let (e, h) = H.file_error s.host in
      (elim e [ none ↦ ok tt | some x ↦ raised x ], record s { host = h })

  abbrev pub modify : (Session H → Session H) → Exec (Unit {0})
  modify f s = (ok tt, f s)

  -- The exit code and the outputs that `run` of dispatcher.py makes of the end of a process.
  unfoldable pub ending : Spawn → ℤ × String × String
  unfolding show_error
  ending (completed rc out err) = (rc, out, err)
  ending timed_out = (pos 124, "", "timeout")
  ending (not_started e) = (pos 1, "", show_error e)

  -- dispatcher.run
  unfoldable pub run : List String → ℕ → Exec (ℤ × String × String)
  unfolding ending
  run cmd timeout s =
      let (end, h) = H.subprocess cmd timeout s.host in
      (ok (ending end), record s { host = h; calls = cmd ∷ s.calls })
