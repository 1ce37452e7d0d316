-- ===== src/Dispatcher/Status.antt =====
-- The class `Status` of dispatcher.py, and `atomic_json` on status.json.
use runboard_lcp.Base.{
  ℕ, String, Option, none, some, List, [], ◌∷◌, ◌++◌, length, last_n, is_empty, rstrip,
  if◌then◌else◌,
}
use runboard_lcp.Base.Act.{◌>>◌, pure}
use runboard_lcp.Dispatcher.Doc.{Doc, default_doc}
use runboard_lcp.Dispatcher.Session.{Session, Exec, touch_file, modify}
use runboard_lcp.Host.{Host}

-- LOG_KEEP
abbrev pub log_keep : ℕ
log_keep = 60

module _ {F : Type 0} (H : Host F) where
  -- `self.doc` with the tail of the log, written to status.json.
  unfoldable pub flush : Exec H (Unit {0})
  flush = do
    modify H (λ s. record s { doc = record s.doc { log_tail = last_n log_keep s.logs } })
    touch_file H
    modify H (λ s. record s { status = some s.doc })

  -- Status.set, with the changed fields as a function.
  unfoldable pub set : (Doc F → Doc F) → Exec H (Unit {0})
  unfolding flush
  set change = do modify H (λ s. record s { doc = change s.doc }); flush

  -- Status.log, less the time stamp and the numbers that a line may print.
  unfoldable pub log : String → Exec H (Unit {0})
  log line = do
    let text = rstrip line
    modify H (λ s. if is_empty text then s else record s { logs = s.logs ++ text ∷ [] })
    set (λ doc. doc)

  unfoldable pub log_all : List String → Exec H (Unit {0})
  log_all [] = pure tt
  log_all (line ∷ lines) = do log line; log_all lines

  -- queue_depth
  unfoldable pub queue_depth : Session H → ℕ
  queue_depth s = length s.queue

  -- Status()
  unfoldable pub new_status : Exec H (Unit {0})
  unfolding flush queue_depth default_doc
  new_status = do
    modify H (λ s. record s { logs = []; doc = record default_doc { queue_depth = queue_depth s } })
    flush

  abbrev pub document : Option (Doc F) → Doc F
  document none = default_doc
  document (some doc) = doc

  -- Status.resume(): the document on disk, or the default where it cannot be read.
  unfoldable pub resume : Exec H (Unit {0})
  unfolding default_doc
  resume =
      modify H (λ s. let doc = document s.status in record s { doc = doc; logs = doc.log_tail })
