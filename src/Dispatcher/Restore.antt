-- ===== src/Dispatcher/Restore.antt =====
-- The `finally` block of `main` in dispatcher.py: the baseline engine comes back.
pub mod Behaviour
use runboard_lcp.Base.{
  ℕ, String, ◌<>◌, Bool, true, false, not, Option, none, some, is_empty, if◌then◌else◌,
}
use runboard_lcp.Base.Act.{◌>>=◌, ◌>>◌, match_try, pure, capture}
use runboard_lcp.Base.Int.{ℤ}
use runboard_lcp.Base.Try.{Error, Try, ok, raised}
use runboard_lcp.Core.Config.{baseline}
use runboard_lcp.Dispatcher.Doc.{Doc, Restored}
use runboard_lcp.Dispatcher.Session.{Session, Exec, on_host}
use runboard_lcp.Dispatcher.Status.{set, log}
use runboard_lcp.Dispatcher.Switch.{is_zero, run_serve, same_switch}
use runboard_lcp.Host.{Host}
use runboard_lcp.Registry.Catalogue.{switch_value_for}
use runboard_lcp.Registry.Live.{live_engine}

module _ {F : Type 0} (H : Host F) where
  -- `switch_value_for(cur) == switch_value_for(C.BASELINE)`
  abbrev pub is_baseline : String → Bool
  is_baseline target = same_switch H (switch_value_for target) (switch_value_for baseline)

  -- After an explicit switch: the engine stays, and the drift is recorded.
  unfoldable pub record_drift : String → Exec H (Unit {0})
  record_drift cur =
      if is_baseline cur
      then (do
        set H (λ doc. record doc { off_baseline = some false })
        log H ("explicit switch, and it is the baseline (" <> baseline <> ")"))
      else (do
        set H (λ doc. record doc { off_baseline = some true })
        log H ("!! off-baseline: serving " <> cur))

  -- After any other job: serve.sh is asked for the baseline unless it is serving already.
  unfoldable pub bring_back : String → String → Exec H (Unit {0})
  bring_back previous cur =
      if is_baseline cur
      then (do
        set H (λ doc. record doc { off_baseline = some false })
        log H ("baseline already serving (" <> baseline <> ") - no restore needed"))
      else (do
        set H (λ doc. record doc { phase = some "restore"; restoring_to = some baseline })
        log H ("restoring baseline: " <> baseline <> " (was serving " <> cur <> ")")
        end ← run_serve H (switch_value_for baseline)
        set H (λ doc. record doc {
          restored_to = some (record {
            target = baseline;
            rc = some end.0;
            is_ok = is_zero end.0;
            previous = previous;
            error = none;
          });
          off_baseline = some (not (is_zero end.0));
        })
        log H (
            if is_zero end.0
            then "restored to baseline " <> baseline
            else "!! restore failed - the port may be OFF the baseline"))

  unfoldable pub restore_body : Bool → String → Exec H (Unit {0})
  unfolding record_drift bring_back
  restore_body explicit_serve previous = do
    cur ← on_host H (live_engine H)
    if explicit_serve then record_drift cur.target else bring_back previous cur.target

  -- A restore that raises is recorded as off the baseline.
  unfoldable pub record_failure : String → Error → Exec H (Unit {0})
  record_failure previous e = do
    set H (λ doc. record doc {
      off_baseline = some true;
      restored_to = some (record {
        target = baseline;
        rc = none;
        is_ok = false;
        previous = previous;
        error = some e;
      });
    })
    log H "!! restore raised"

  unfoldable pub restore : Bool → String → Exec H (Unit {0})
  unfolding restore_body
  restore explicit_serve previous = do
    end ← capture (restore_body explicit_serve previous)
    match_try end pure (record_failure previous)
