-- ===== src/Dispatcher/Switch.antt =====
-- busy_with_something_else, probe_generation and do_switch of dispatcher.py.
pub mod Lands
use runboard_lcp.Base.{
  String, ◌<>◌, Bool, true, false, Option, none, some, List, [], ◌∷◌, last_n, map, ◌==◌, ◌=ℕ=◌,
  is_empty, strip, split_lines, if◌then◌else◌,
}
use runboard_lcp.Base.Act.{◌>>=◌, ◌>>◌, match_option, pure, raise}
use runboard_lcp.Base.Assoc.{find_key}
use runboard_lcp.Base.Int.{ℤ, pos, negsuc}
use runboard_lcp.Base.Try.{Try, ok, raised, type_error, key_error, runtime_error}
use runboard_lcp.Core.Config.{engines}
use runboard_lcp.Core.Disk.{Check, accepted, refused, Refusal}
use runboard_lcp.Core.Jobs.{get_or, is_text}
use runboard_lcp.Dispatcher.Session.{Exec, on_host, run}
use runboard_lcp.Dispatcher.Status.{set, log, log_all}
use runboard_lcp.Host.{Host, chat}
use runboard_lcp.Json.{Json, null, str, arr, obj, cons, Fields, lookup}
use runboard_lcp.Registry.Catalogue.{switch_value_for}
use runboard_lcp.Registry.Live.{LiveEngine, live_engine}

-- SERVE
abbrev pub serve_sh : String
serve_sh = "/root/serve.sh"

abbrev pub is_zero : ℤ → Bool
is_zero (pos n) = n =ℕ= 0
is_zero (negsuc n) = false

abbrev pub fallback_model : String
fallback_model = "qwen38-flash-next-exl3"

-- `(live_engine() or {}).get("model_id") or "…"`
abbrev pub model_or_fallback : LiveEngine → String
model_or_fallback e = elim e.model_id [
  | none ↦ fallback_model
  | some m ↦ if is_empty m then fallback_model else m
]

-- The patterns of the other users of the port, with their labels.
abbrev pub port_users : List (String × String)
port_users =
    ("load_soak[.]py", "load soak")
    ∷ ("run_quality_set[.]py", "frozen kit run")
    ∷ ("q200_lite[.]py", "preset run")
    ∷ ("bench_thr[.]py", "throughput sweep")
    ∷ []

-- The lines of serve.sh that are copied to the log.
abbrev pub tail_lines : String → List String
tail_lines out = map (λ l. "  " <> l) (last_n 12 (split_lines out))

module _ {F : Type 0} where
  -- `ENGINES[want]["switch"]`
  unfoldable pub engine_switch : Json F → Try (Option String)
  engine_switch (str name) = elim (find_key name engines) [
    | none ↦ raised (key_error name)
    | some e ↦ ok e.switch
  ]
  engine_switch (arr xs) = raised type_error
  engine_switch (obj d) = raised type_error
  engine_switch v = raised (key_error "engine")

  -- The text of an engine's name, for the log.
  abbrev pub name_of : Json F → String
  name_of (str name) = name
  name_of v = ""

  -- Whether `(d["choices"][0]["message"].get("content") or "").strip()` raises nothing.
  message_answers : Option (Json F) → Bool
  message_answers (some (obj m)) = elim (lookup "content" m) [
    | none ↦ true
    | some null ↦ true
    | some (str s) ↦ true
    | _ ↦ false
  ]
  message_answers v = false

  choice_answers : Option (Json F) → Bool
  choice_answers (some (arr (cons (obj c) _))) = message_answers (lookup "message" c)
  choice_answers v = false

  unfoldable pub answers : Try (Option (Json F)) → Bool
  unfolding message_answers choice_answers
  answers (ok (some (obj d))) = choice_answers (lookup "choices" d)
  answers v = false

module _ {F : Type 0} (H : Host F) where
  -- The label of the first other user of the port that is running.
  unfoldable pub busy_in : List (String × String) → Exec H (Option String)
  busy_in [] = pure none
  busy_in ((p, label) ∷ users) = do
    end ← run H ("pgrep" ∷ "-f" ∷ p ∷ []) 10
    if is_empty (strip end.1) then busy_in users else pure (some label)

  unfoldable pub busy_with_something_else : Exec H (Option String)
  busy_with_something_else = busy_in port_users

  unfoldable pub probe_generation : Exec H Bool
  unfolding answers
  probe_generation = do
    live ← on_host H (live_engine H)
    answer ← on_host H (H.urlopen (chat (model_or_fallback live)))
    pure (answers answer)

  -- `run([SERVE, target], timeout=2700)`. With no target the call raises TypeError, and `run` gives 1.
  unfoldable pub run_serve : Option String → Exec H (ℤ × String × String)
  run_serve none = pure (pos 1, "", "TypeError")
  run_serve (some target) = run H (serve_sh ∷ target ∷ []) 2700

  abbrev pub same_switch : Option String → Option String → Bool
  same_switch none none = true
  same_switch (some a) (some b) = a == b
  same_switch a b = false

  -- The part of do_switch behind the test that nothing has to be switched.
  unfoldable pub switch_to : Json F → Option String → Exec H (Unit {0})
  switch_to want target = do
    set H (λ doc. record doc { phase = some "switch" })
    log H ("switching to " <> name_of want)
    end ← run_serve target
    log_all H (tail_lines end.1)
    if is_zero end.0 then pure tt else (do
      log H "switch failed"
      raise (runtime_error ("switch to " <> name_of want <> " failed")))
    after ← on_host H (live_engine H)
    log H ("engine now: " <> after.target)
    if same_switch (switch_value_for after.target) target then pure tt else (do
      log H "!! switch did not take"
      raise (runtime_error ("switch to " <> name_of want <> " did not take")))
    answered ← probe_generation
    log H (if answered then "generation probe: OK" else "generation probe: FAIL")
    if answered
        then pure tt
        else raise (runtime_error ("switched to " <> name_of want <> " but it does not answer"))

  abbrev pub lift : {A : Type 0} → Try A → Exec H A
  lift r s = (r, s)

  -- A branch on the verdict of a check.
  abbrev pub match_check : {A : Type 0} → Check → (Refusal → Exec H A) → Exec H A → Exec H A
  match_check accepted f m = m
  match_check (refused why) f m = f why

  abbrev text_or : Option (Json F) → Option String
  text_or (some (str t)) = some t
  text_or v = none

  -- `job[key]` as a text. A value that is no text counts as missing.
  unfoldable pub text_field : String → Fields F → Exec H String
  text_field key job = match_option (text_or (lookup key job)) (raise (key_error key)) pure

  unfoldable pub do_switch : Fields F → Exec H (Unit {0})
  unfolding engine_switch switch_to
  do_switch job =
      let want = get_or "engine" (str "current") job in
      if is_text (some want) "current"
      then log H "engine: whatever is serving now, no switch requested"
      else (do
        target ← lift (engine_switch want)
        cur ← on_host H (live_engine H)
        if same_switch (switch_value_for cur.target) target
            then log H ("engine: already on " <> name_of want)
            else switch_to want target)
