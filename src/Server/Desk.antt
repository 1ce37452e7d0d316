-- ===== src/Server/Desk.antt =====
-- What the server works on, and auth_log of live_server.py.
use runboard_lcp.Base.{String, Option, none, some, List, [], ◌∷◌, ◌++◌}
use runboard_lcp.Base.Act.{Act, ◌>>◌, pure, capture}
use runboard_lcp.Base.Run.{Run}
use runboard_lcp.Base.Try.{Try, ok, raised}
use runboard_lcp.Dispatcher.Session.{Folder}
use runboard_lcp.Host.{Host}

-- `host` is the box and `token` the text of the token file, `none` where it cannot be read. `queue` is
-- the queue folder, and `elsewhere` are the files that were written outside of it, by their path
-- from it. `auth` is auth.log, less the time stamps.
pub record Desk {F : Type 0} (H : Host F) : Type 0 where
  pub host : H.State
  pub token : Option String
  pub queue : Folder F
  pub elsewhere : Folder F
  pub auth : List String

module _ {F : Type 0} (H : Host F) where
  abbrev pub Serve : Type 0 → Type 0
  Serve A = Act (Desk H) A

  abbrev pub on_box : {A : Type 0} → Run H.State A → Serve A
  on_box m s = let (a, h) = m s.host in (ok a, record s { host = h })

  -- A file operation, which may raise.
  abbrev pub touch : Serve (Unit {0})
  touch s =
      let (e, h) = H.file_error s.host in
      (elim e [ none ↦ ok tt | some x ↦ raised x ], record s { host = h })

  abbrev pub update : (Desk H → Desk H) → Serve (Unit {0})
  update f s = (ok tt, f s)

  abbrev pub lift : {A : Type 0} → Try A → Serve A
  lift r s = (r, s)

  -- A line that cannot be written is passed over.
  unfoldable pub auth_log : String → Serve (Unit {0})
  auth_log line = do
    capture (do touch; update (λ s. record s { auth = s.auth ++ line ∷ [] }))
    pure tt
