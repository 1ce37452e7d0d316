-- ===== src/Dispatcher/Restore/Behaviour.antt =====
-- What `restore` records, and when it runs serve.sh.
use runboard_lcp.Base.{
  String, Bool, true, false, not, Option, none, some, List, [], ◌∷◌, ◌≡◌, refl, arith,
  if◌then◌else◌, Bool-cases, inl, inr, ◌<>◌,
}
use runboard_lcp.Base.Act.{◌>>◌}
use runboard_lcp.Base.Act.Succeeds.{Ends, Ends-bind, Ends-weaken}
use runboard_lcp.Base.Int.{ℤ}
use runboard_lcp.Base.Try.{ok}
use runboard_lcp.Core.Config.{baseline}
use runboard_lcp.Dispatcher.Doc.{Doc, Restored}
use runboard_lcp.Dispatcher.Restore.{is_baseline, record_drift, bring_back, restore_body, restore}
use runboard_lcp.Dispatcher.Session.{Session, modify, ending, run}
use runboard_lcp.Dispatcher.Status.{set, log}
use runboard_lcp.Dispatcher.Switch.{is_zero, run_serve, serve_sh}
use runboard_lcp.Dispatcher.Writes.{Writable}
use runboard_lcp.Host.{Host}
use runboard_lcp.Registry.Catalogue.{switch_value_for}
use runboard_lcp.Registry.Live.{live_engine}

module _ {F : Type 0} (H : Host F) where
  -- The fields that `restore` is about.
  pub record Told (off : Option Bool) (restored : Option Restored) (calls : List (List String))
      (s : Session H) : Type 0 where
    pub off_same : s.doc.off_baseline ≡ off
    pub restored_same : s.doc.restored_to ≡ restored
    pub calls_same : s.calls ≡ calls

  -- What is left behind a job's work where `cur` was serving: with the baseline up nothing is run,
  -- else serve.sh was run for the baseline, and its exit code is what is recorded.
  pub data Restoration (previous cur : String) (restored : Option Restored)
      (calls : List (List String)) (s : Session H) : Type 0 where
    already_there :
        is_baseline H cur ≡ true
        → Told (some false) restored calls s
        → Restoration previous cur restored calls s
    asked :
        (h : H.State) (rc : ℤ)
        → is_baseline H cur ≡ false
        → rc ≡ (ending H (H.subprocess (serve_sh ∷ "glm53" ∷ []) 2700 h).0).0
        → Told
            (some (not (is_zero rc)))
            (some (record {
              target = baseline;
              rc = some rc;
              is_ok = is_zero rc;
              previous = previous;
              error = none;
            }))
            ((serve_sh ∷ "glm53" ∷ []) ∷ calls)
            s
        → Restoration previous cur restored calls s

  module _ (w : Writable H) where
    set-Told :
        (change : Doc F → Doc F) {off off' : Option Bool} {restored restored' : Option Restored}
        {calls : List (List String)}
        → ((doc : Doc F) → doc.off_baseline ≡ off → (change doc).off_baseline ≡ off')
        → ((doc : Doc F) → doc.restored_to ≡ restored → (change doc).restored_to ≡ restored')
        → Ends (Told off restored calls) (set H change) (λ _. Told off' restored' calls)
    unfolding set
    set-Told change ho hr = record {
      at = λ s t. (
        tt,
        rw (w s.host) refl,
        rw (w s.host) (record {
          off_same = ho s.doc t.off_same;
          restored_same = hr s.doc t.restored_same;
          calls_same = t.calls_same;
        }),
      );
    }

    log-Told :
        (line : String) {off : Option Bool} {restored : Option Restored}
        {calls : List (List String)}
        → Ends (Told off restored calls) (log H line) (λ _. Told off restored calls)
    unfolding log
    log-Told line =
        Ends-bind (modify H _) _ (record { at = λ s t. (tt, refl, ground arith) })
          (λ _. set-Told (λ doc. doc) (λ doc e. e) (λ doc e. e))

    module _ (previous cur : String) (off : Option Bool) (restored : Option Restored)
        (calls : List (List String)) where
      abbrev Before : Session H → Type 0
      Before = Told off restored calls

      -- The exit code and outputs of serve.sh, with its call recorded.
      abbrev Asked : ℤ × String × String → Session H → Type 0
      Asked end s =
          ((h : H.State) × (end.0 ≡ (ending H (H.subprocess (serve_sh ∷ "glm53" ∷ []) 2700 h).0).0))
          × Told off restored ((serve_sh ∷ "glm53" ∷ []) ∷ calls) s

      serve-Asked : Ends Before (run_serve H (switch_value_for baseline)) Asked
      unfolding run_serve run switch_value_for
      serve-Asked = record { at = λ s t. (_, refl, ((s.host, refl), ground arith)) }

      -- What is recorded of serve.sh's end.
      recorded :
          (end : ℤ × String × String)
          → is_baseline H cur ≡ false
          → Ends
              (Asked end)
              (do
                set H (λ doc. record doc {
                  restored_to = some (record {
                    target = baseline;
                    rc = some end.0;
                    is_ok = is_zero end.0;
                    previous = previous;
                    error = none;
                  });
                  off_baseline = some (not (is_zero end.0));
                })
                log H (
                    if is_zero end.0
                    then "restored to baseline " <> baseline
                    else "!! restore failed - the port may be OFF the baseline"))
              (λ _. Restoration previous cur restored calls)
      recorded end off_it = record {
        at = λ s ((h, e), t).
            Ends.at {Q = λ _. Restoration previous cur restored calls}
              (Ends-bind (set H _) _ (set-Told _ (λ doc e. refl) (λ doc e. refl))
                (λ _. Ends-weaken _ (log-Told _) (λ _ s t. asked h end.0 off_it e t)))
              s t;
      }

      asked-Ends :
          is_baseline H cur ≡ false
          → Ends Before (bring_back H previous cur) (λ _. Restoration previous cur restored calls)
      unfolding bring_back
      asked-Ends off_it = rw off_it (
          Ends-bind (set H _) _ (set-Told _ (λ doc e. e) (λ doc e. e)) λ _.
            Ends-bind (log H _) _ (log-Told _) λ _.
              Ends-bind (run_serve H (switch_value_for baseline)) _ serve-Asked
                λ end. recorded end off_it)

      there-Ends :
          is_baseline H cur ≡ true
          → Ends Before (bring_back H previous cur) (λ _. Restoration previous cur restored calls)
      unfolding bring_back
      there-Ends there = rw there (
          Ends-bind (set H _) _ (set-Told _ (λ doc e. refl) (λ doc e. e))
            λ _. Ends-weaken _ (log-Told _) (λ _ s t. already_there there t))

      bring_back-Ends :
          Ends Before (bring_back H previous cur) (λ _. Restoration previous cur restored calls)
      bring_back-Ends = elim (Bool-cases (is_baseline H cur)) [
        | inl e ↦ there-Ends e
        | inr e ↦ asked-Ends e
      ]

    drift-Ends :
        (cur : String) {off : Option Bool} {restored : Option Restored} {calls : List (List String)}
        → Ends
            (Told off restored calls)
            (record_drift H cur)
            (λ _. Told (some (not (is_baseline H cur))) restored calls)
    unfolding record_drift
    drift-Ends cur = elim (Bool-cases (is_baseline H cur)) [
      | inl e ↦
          rw e (Ends-bind (set H _) _ (set-Told _ (λ doc e. refl) (λ doc e. e)) λ _. log-Told _)
      | inr e ↦
          rw e (Ends-bind (set H _) _ (set-Told _ (λ doc e. refl) (λ doc e. e)) λ _. log-Told _)
    ]

  as_it_is :
      (s : Session H)
      → Told s.doc.off_baseline s.doc.restored_to s.calls
          (record s { host = (live_engine H s.host).1 })
  as_it_is s = record { off_same = refl; restored_same = refl; calls_same = refl }

  -- Behind an explicit switch, where the files can be written, `restore` runs no command and changes
  -- no record of a restore: it records whether the engine that it finds serving is off the baseline.
  pub restore-serve :
      Writable H
      → (previous : String) (s : Session H)
      → let t = (restore H true previous s).1 in
        Told
          (some (not (is_baseline H (live_engine H s.host).0.target)))
          s.doc.restored_to
          s.calls
          t
  unfolding restore restore_body
  restore-serve w previous s =
      let (_, e, t) =
        (drift-Ends w (live_engine H s.host).0.target).at
          (record s { host = (live_engine H s.host).1 }) (as_it_is s) in
      rw e t

  -- Behind any other job, where the files can be written, `restore` returns; with the baseline serving
  -- it runs no command and records that the port is on the baseline, else it runs serve.sh once for
  -- the baseline and records its exit code, and the port as off the baseline unless that code is 0.
  pub restore-Restoration :
      Writable H
      → (previous : String) (s : Session H)
      → ((restore H false previous s).0 ≡ ok tt)
        × Restoration previous
            (live_engine H s.host).0.target
            s.doc.restored_to
            s.calls
            (restore H false previous s).1
  unfolding restore restore_body
  restore-Restoration w previous s =
      let (_, e, r) =
        (bring_back-Ends w previous (live_engine H s.host).0.target s.doc.off_baseline
            s.doc.restored_to s.calls).at
          (record s { host = (live_engine H s.host).1 }) (as_it_is s) in
      rw e (refl, r)
