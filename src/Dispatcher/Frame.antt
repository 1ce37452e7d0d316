-- ===== src/Dispatcher/Frame.antt =====
-- The queue, the archive and the history, which only `finish` and the deferral change.
use runboard_lcp.Base.{Option, List, ◌≡◌, arith}
use runboard_lcp.Dispatcher.Doc.{HistoryEntry}
use runboard_lcp.Dispatcher.Session.{Folder, Session}
use runboard_lcp.Dispatcher.Status.{set, log}
use runboard_lcp.Dispatcher.Steady.{Steady}
use runboard_lcp.Host.{Host}

module _ {F : Type 0} (H : Host F) (queue done : Folder F)
    (history : Option (List (HistoryEntry F))) where
  -- The three are as given.
  pub record Frame (s : Session H) : Type 0 where
    pub queue_same : s.queue ≡ queue
    pub done_same : s.done ≡ done
    pub history_same : s.history ≡ history

  pub Frame-Steady : Steady H Frame
  unfolding set log
  Frame-Steady = record {
    on_box = λ s h f. ground arith;
    on_call = λ s cmd f. ground arith;
    on_publish = λ s name f. ground arith;
    on_set = λ change. record { at = λ s f. ground arith };
    on_log = λ line. record { at = λ s f. ground arith };
  }
