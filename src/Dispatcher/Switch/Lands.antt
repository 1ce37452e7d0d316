-- ===== src/Dispatcher/Switch/Lands.antt =====
-- A switch that returns: what it has run, and what it was told.
use runboard_lcp.Base.{
  String, ◌≡◌, ◌≢◌, refl, sym, ap, ◌∙◌, Bool, true, false, Option, none, some, arith, eq_iff, [],
  ◌∷◌, ◌==◌, ◌<>◌, if◌then◌else◌,
}
use runboard_lcp.Base.Act.{Act, ◌>>=◌, ◌>>◌, pure, raise, reraise}
use runboard_lcp.Base.Int.{ℤ, pos}
use runboard_lcp.Base.Try.{Error, Try, ok, raised, runtime_error}
use runboard_lcp.Core.Jobs.{or_else, is_text}
use runboard_lcp.Dispatcher.Session.{Session, Exec, on_host, run}
use runboard_lcp.Dispatcher.Status.{set, log, log_all}
use runboard_lcp.Dispatcher.Switch.{
  engine_switch, same_switch, switch_to, lift, do_switch, name_of, serve_sh, run_serve, tail_lines,
  is_zero, probe_generation,
}
use runboard_lcp.Host.{Host}
use runboard_lcp.Json.{Json, str, Fields, lookup}
use runboard_lcp.Registry.Catalogue.{switch_value_for}
use runboard_lcp.Registry.Live.{LiveEngine, live_engine}

module _ {S A B : Type 0} where
  -- The two parts of a chain that returns.
  >>=-eq-ok :
      (m : Act S A) (f : A → Act S B) (s t : S) (b : B)
      → (m >>= f) s ≡ (ok b, t)
      → (a : A) × (u : S) × (m s ≡ (ok a, u)) × (f a u ≡ (ok b, t))
  >>=-eq-ok m f s t b h = by_first (m s).0 (m s).1 refl refl h
    where
      by_first :
          (r : Try A) (u : S)
          → (m s).0 ≡ r
          → (m s).1 ≡ u
          → (reraise r >>= f) u ≡ (ok b, t)
          → (a : A) × (v : S) × (m s ≡ (ok a, v)) × (f a v ≡ (ok b, t))
      by_first (ok a) u e e' k = (a, u, (λ i. (e i, e' i)), k)
      by_first (raised x) u e e' k = absurd (cc (ap (λ p. p.0) k))

module _ {S A : Type 0} where
  -- `if not test: log; raise`
  returns_past :
      (test : Bool) (m : Act S A) (x : Error) (s t : S)
      → (if test then pure tt else (m >>= λ _. raise x)) s ≡ (ok tt, t)
      → (test ≡ true) × (t ≡ s)
  returns_past true m x s t h = (refl, ap (λ p. p.1) (sym h))
  returns_past false m x s t h =
      let (a, u, e, k) = >>=-eq-ok m (λ _. raise x) s t tt h in absurd (cc (ap (λ p. p.0) k))

module _ {F : Type 0} (H : Host F) where
  -- The registry, asked in this state, names an engine with this token.
  abbrev pub Names : Option String → Session H → Type 0
  Names token s = same_switch H (switch_value_for (live_engine H s.host).0.target) token ≡ true

  -- The session once the registry has been asked.
  abbrev pub asked : Session H → Session H
  asked s = record s { host = (live_engine H s.host).1 }

  -- How a switch to an engine with this token returns: without running anything, since the registry
  -- names the engine when it is asked first; or behind one run of serve.sh for the token, which exits
  -- with 0, an answer of the registry right behind it that names the engine, and a generation that is
  -- answered.
  pub data Landed (want : Json F) (token : Option String) (s t : Session H) : Type 0 where
    already :
        Names token s
        → log H ("engine: already on " <> name_of want) (asked s) ≡ (ok tt, t)
        → Landed want token s t
    switched :
        (target : String) (a b c u v w : Session H) (end : ℤ × String × String)
        → token ≡ some target
        → set H (λ doc. record doc { phase = some "switch" }) (asked s) ≡ (ok tt, a)
        → log H ("switching to " <> name_of want) a ≡ (ok tt, b)
        → run H (serve_sh ∷ target ∷ []) 2700 b ≡ (ok end, c)
        → is_zero end.0 ≡ true
        → log_all H (tail_lines end.1) c ≡ (ok tt, u)
        → Names token u
        → log H ("engine now: " <> (live_engine H u.host).0.target) (asked u) ≡ (ok tt, v)
        → probe_generation H v ≡ (ok true, w)
        → log H "generation probe: OK" w ≡ (ok tt, t)
        → Landed want token s t

  module _ (want : Json F) (token : Option String) where
    -- What switch_to does behind the probe, behind the answer of the registry, and behind serve.sh.
    abbrev on_probe : Bool → Exec H (Unit {0})
    on_probe answered = do
      log H (if answered then "generation probe: OK" else "generation probe: FAIL")
      if answered
          then pure tt
          else raise (runtime_error ("switched to " <> name_of want <> " but it does not answer"))

    abbrev on_engine : LiveEngine → Exec H (Unit {0})
    on_engine after = do
      log H ("engine now: " <> after.target)
      if same_switch H (switch_value_for after.target) token then pure tt else (do
        log H "!! switch did not take"
        raise (runtime_error ("switch to " <> name_of want <> " did not take")))
      answered ← probe_generation H
      on_probe answered

    abbrev behind_serve : ℤ → Exec H (Unit {0})
    behind_serve code = do
      if is_zero code then pure tt else (do
        log H "switch failed"
        raise (runtime_error ("switch to " <> name_of want <> " failed")))
      after ← on_host H (live_engine H)
      on_engine after

    abbrev on_serve : ℤ × String × String → Exec H (Unit {0})
    on_serve end = do log_all H (tail_lines end.1); behind_serve end.0

    by_answer :
        (answered : Bool) (w t : Session H)
        → on_probe answered w ≡ (ok tt, t)
        → (answered ≡ true) × (log H "generation probe: OK" w ≡ (ok tt, t))
    by_answer true w t h =
        let (_, x, e, k) = >>=-eq-ok (log H "generation probe: OK") (λ _. pure tt) w t tt h in
        (refl, e ∙ k)
    by_answer false w t h =
        let (_, x, e, k) =
          >>=-eq-ok (log H "generation probe: FAIL")
            (λ _.
              raise (runtime_error ("switched to " <> name_of want <> " but it does not answer")))
            w t tt h in
        absurd (cc (ap (λ p. p.0) k))

    served :
        (o : Option String) (end : ℤ × String × String) (b c : Session H)
        → run_serve H o b ≡ (ok end, c)
        → is_zero end.0 ≡ true
        → (target : String) × (o ≡ some target)
          × (run H (serve_sh ∷ target ∷ []) 2700 b ≡ (ok end, c))
    unfolding run_serve
    served (some target) end b c h z = (target, refl, h)
    served none end b c h z =
        let first : end ≡ (pos 1, "", "TypeError") = cc (ap (λ p. p.0) h) in
        absurd (let no_zero : is_zero end.0 ≡ false = rw first refl in cc (z, no_zero))

    -- From the answer of the registry to the end
    record Answers (u t : Session H) : Type 0 where
      v : Session H
      w : Session H
      named : Names token u
      noted : log H ("engine now: " <> (live_engine H u.host).0.target) (asked u) ≡ (ok tt, v)
      probed : probe_generation H v ≡ (ok true, w)
      ended : log H "generation probe: OK" w ≡ (ok tt, t)

    on_engine-Answers :
        (u t : Session H) → on_engine (live_engine H u.host).0 (asked u) ≡ (ok tt, t) → Answers u t
    on_engine-Answers u t h =
        let after = (live_engine H u.host).0 in
        let took : Exec H (Unit {0}) =
          if same_switch H (switch_value_for after.target) token then pure tt else (do
            log H "!! switch did not take"
            raise (runtime_error ("switch to " <> name_of want <> " did not take"))) in
        let (_, v, noted, h1) =
          >>=-eq-ok (log H ("engine now: " <> after.target))
            (λ _. do took; answered ← probe_generation H; on_probe answered) (asked u) t tt h in
        let (_, v', taken, h2) =
          >>=-eq-ok took (λ _. do answered ← probe_generation H; on_probe answered) v t tt h1 in
        let (named, same) =
          returns_past (same_switch H (switch_value_for after.target) token)
            (log H "!! switch did not take")
            (runtime_error ("switch to " <> name_of want <> " did not take")) v v' taken in
        let (answered, w, probed, h3) = >>=-eq-ok (probe_generation H) on_probe v' t tt h2 in
        let (is_true, ended) = by_answer answered w t h3 in
        record {
          v = v;
          w = w;
          named = named;
          noted = noted;
          probed = rw (← same, ← is_true) probed;
          ended = ended;
        }

    switch_to-Landed :
        (s t : Session H) → switch_to H want token (asked s) ≡ (ok tt, t) → Landed want token s t
    unfolding switch_to
    switch_to-Landed s t h =
        let (_, a, set_done, h1) =
          >>=-eq-ok (set H (λ doc. record doc { phase = some "switch" }))
            (λ _. do log H ("switching to " <> name_of want); end ← run_serve H token; on_serve end)
            (asked s) t tt h in
        let (_, b, log_done, h2) =
          >>=-eq-ok (log H ("switching to " <> name_of want))
            (λ _. do end ← run_serve H token; on_serve end) a t tt h1 in
        let (end, c, ran, h3) = >>=-eq-ok (run_serve H token) on_serve b t tt h2 in
        let (_, u, copied, h4) =
          >>=-eq-ok (log_all H (tail_lines end.1)) (λ _. behind_serve end.0) c t tt h3 in
        let (_, u', exits, h5) =
          >>=-eq-ok
            (if is_zero end.0 then pure tt else (do
              log H "switch failed"
              raise (runtime_error ("switch to " <> name_of want <> " failed"))))
            (λ _. do after ← on_host H (live_engine H); on_engine after) u t tt h4 in
        let (zero, same) =
          returns_past (is_zero end.0) (log H "switch failed")
            (runtime_error ("switch to " <> name_of want <> " failed")) u u' exits in
        let (target, is_target, run_it) = served token end b c ran zero in
        let r = on_engine-Answers u t (rw same at h5) in
        switched target a b c u r.v r.w end is_target set_done log_done run_it zero copied r.named
          r.noted r.probed r.ended

  by_token :
      (want : Json F) (token : Option String) (b : Bool) (s t : Session H)
      → same_switch H (switch_value_for (live_engine H s.host).0.target) token ≡ b
      → (if b then log H ("engine: already on " <> name_of want) else switch_to H want token)
          (asked s)
        ≡ (ok tt, t)
      → Landed want token s t
  by_token want token true s t e h = already e h
  by_token want token false s t e h = switch_to-Landed want token s t h

  by_switch :
      (want : Json F) (token : Option String) (r : Try (Option String)) (s t : Session H)
      → r ≡ ok token
      → (do
        target ← lift H r
        cur ← on_host H (live_engine H)
        if same_switch H (switch_value_for cur.target) target
            then log H ("engine: already on " <> name_of want)
            else switch_to H want target)
          s
        ≡ (ok tt, t)
      → Landed want token s t
  by_switch want token r s t e h = by_token want token _ s t refl (rw e at h)

  by_name :
      (job : Fields F) (name : String) (token : Option String) (s t : Session H)
      → lookup "engine" job ≡ some (str name)
      → name ≢ "current"
      → engine_switch {F = F} (str name) ≡ ok token
      → do_switch H job s ≡ (ok tt, t)
      → Landed (str name) token s t
  unfolding do_switch is_text
  by_name job name token s t p other q h =
      let not_current : (name == "current") ≡ false = ground (arith, eq_iff name "current") in
      by_switch (str name) token (engine_switch {F = F} (str name)) s t q
        (rw not_current at (rw (p, or_else) at h))

-- Where a job names an engine other than current and the switch for it returns, one of two things has
-- happened: the registry, asked first, named an engine that has the token of the one asked for, and
-- nothing but a line of the log followed; or serve.sh was run once, with that token, and exited with
-- 0, the registry, asked next in the state after that run and the lines of its log, named an engine
-- that has the token, and the generation probe that followed was answered.
pub do_switch-Landed :
    {F : Type 0} (H : Host F) (job : Fields F) (name : String) (token : Option String)
    (s : Session H)
    → lookup "engine" job ≡ some (str name)
    → name ≢ "current"
    → engine_switch {F = F} (str name) ≡ ok token
    → (do_switch H job s).0 ≡ ok tt
    → Landed H (str name) token s (do_switch H job s).1
do_switch-Landed {F} H job name token s p other q e =
    by_name H job name token s (do_switch H job s).1 p other q (λ i. (e i, (do_switch H job s).1))
