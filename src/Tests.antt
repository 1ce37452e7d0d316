-- ===== src/Tests.antt =====
-- A box to run the dispatcher on, tests of it, and the theorems at concrete inputs.
mod Server
mod Metrics
mod Hub
mod Throughput
mod Scrape
mod Drained
mod Page
mod Banked
mod Soaked
use Prim.Native.Nat.{◌+◌, ◌*◌}
use runboard_lcp.Base.{
  arith, split_lines, strip, ℕ, String, ◌≡◌, refl, ◌≢◌, Bool, true, false, Option, none, some, List,
  [], ◌∷◌, not, ltb, ◌↔◌, ◌==◌, ◌&&◌, if◌then◌else◌,
}
use runboard_lcp.Base.Int.{ℤ, pos, negsuc}
use runboard_lcp.Base.Try.{ok, raised, type_error}
use runboard_lcp.Core.Disk.{Check, accepted}
use runboard_lcp.Base.Act.Keeps.{Keeps}
use runboard_lcp.Dispatcher.Status.{document, set, log, log_all}
use runboard_lcp.Core.Config.{presets, engines, default_workers}
use runboard_lcp.Base.Assoc.{has_key, find_key}
use runboard_lcp.Core.Floats.{Floats}
use runboard_lcp.Core.Jobs.{
  validate_job, check_eval, check_engine, check_with_preset, check_workers, runner_carries,
  workers_of, in_dict, is_text, job_public_view,
}
use runboard_lcp.Core.Jobs.PublicView.{job_public_view-hides-token}
use runboard_lcp.Core.Jobs.Valid.{IsValid, validate_job-iff-IsValid}
use runboard_lcp.Core.Token.{read_token, token_ok}
use runboard_lcp.Core.Token.Closed.{Carries, token_ok-iff-Carries}
use runboard_lcp.Dispatcher.Doc.{default_doc}
use runboard_lcp.Dispatcher.Eval.{wait_runner}
use runboard_lcp.Dispatcher.Clock.{Clock}
use runboard_lcp.Dispatcher.Download.{wait_download}
use runboard_lcp.Dispatcher.Download.Limit.{Settled, wait_download-settles}
use runboard_lcp.Dispatcher.Eval.Limit.{wait_runner-returns}
use runboard_lcp.Dispatcher.Main.{main}
use runboard_lcp.Dispatcher.Main.Bounds.{IsBounded, main-IsBounded}
use runboard_lcp.Dispatcher.Main.Idle.{Resumed, main-Resumed}
use runboard_lcp.Dispatcher.Main.Stuck.{Untouched, main-crashes}
use runboard_lcp.Dispatcher.Main.Tick.{Accounted, main-Accounted}
use runboard_lcp.Dispatcher.Queue.{oldest_job, read_job}
use runboard_lcp.Dispatcher.Restore.{is_baseline, restore}
use runboard_lcp.Dispatcher.Restore.Behaviour.{
  Told, Restoration, restore-serve, restore-Restoration,
}
use runboard_lcp.Dispatcher.Session.{Session, run, ending}
use runboard_lcp.Dispatcher.Switch.{
  engine_switch, do_switch, switch_to, run_serve, probe_generation, answers,
}
use runboard_lcp.Dispatcher.Switch.Lands.{Landed, do_switch-Landed}
use runboard_lcp.Dispatcher.Writes.{Writable}
use runboard_lcp.Host.{Host, Spawn, completed}
use runboard_lcp.Json.{Json, obj, str, arr, cons, nil, Fields, end, field, insert, lookup}
use runboard_lcp.Registry.Catalogue.{switch_value_for, catalogue}
use runboard_lcp.Registry.Catalogue.Tokens.{switch_value_for-injective}
use runboard_lcp.Registry.Live.{
  live_engine, listener_pid, run_output, vllm_build, text_at, serving, active_unit,
  running_container, served_id,
}

-- Whole gigabytes for the numbers.
abbrev pub whole : Floats
whole = record {
  F = ℕ;
  lit = λ n. n;
  of_int = λ i. elim i [ pos n ↦ n | negsuc n ↦ 0 ];
  add = λ a b. a + b;
  gt = λ a b. ltb b a;
  giga = λ n. n;
}

-- What processes print on a box whose state is the token of the engine that is up: `serve.sh`
-- switches, and the container of the baseline runs where its token is up.
abbrev respond : List String → String → Spawn × String
respond (program ∷ target ∷ []) up =
    if program == "/root/serve.sh"
    then (completed (pos 0) "" "", target)
    else (completed (pos 3) "" "", up)
respond (systemctl ∷ is_active ∷ unit ∷ []) up =
    if (unit == "exl3-cruz-fork.service") && (up == "cruz")
    then (completed (pos 0) "active" "", up)
    else (completed (pos 3) "" "", up)
respond (docker ∷ inspect ∷ f ∷ format ∷ name ∷ []) up =
    if (name == "glm53-flash-tf") && (up == "glm53")
    then (completed (pos 0) "running" "", up)
    else (completed (pos 1) "" "", up)
respond cmd up = (completed (pos 1) "" "", up)

-- A chat completion.
abbrev answer : Fields ℕ
answer = field "choices" (arr (cons (obj (field "message" (obj end) end)) nil)) end

abbrev pub box : Host ℕ
box = record {
  State = String;
  subprocess = λ cmd timeout up. respond cmd up;
  urlopen = λ request up. (ok (some (obj answer)), up);
  maps = λ pid up. (none, up);
  dist_dirs = λ pattern up. ([], up);
  disk_usage = λ up. (some 900, up);
  file_error = λ up. (none, up);
  popen = λ cmd up. (none, up);
  poll = λ up. (some (pos 0), up);
  terminate = λ up. (tt, up);
  kill = λ up. (tt, up);
  sleep = λ n up. (tt, up);
  time = λ up. (0, up);
  cached_gb = λ repo up. (none, up);
  count_rows = λ run_id up. (some 21, up);
  read_log = λ path up. (none, up);
  exists = λ path up. (false, up);
  read_json = λ path up. (none, up);
}

box-Writable : Writable box
box-Writable h = refl

abbrev pub eval_job : Fields ℕ
eval_job =
    field "action" (str "eval") (
      field "preset" (str "smoke-20")
        (field "job_id" (str "a1") (field "token" (str "s3cret") end)))

exl3_token : switch_value_for "exl3-2.5bpw" ≡ some "exl3"
unfolding switch_value_for
exl3_token = refl

-- A session with the given engine up and the given jobs waiting.
abbrev session : String → List (String × Option (Json ℕ)) → Session box
session up queue = record {
  host = up;
  queue = queue;
  done = [];
  history = none;
  status = none;
  published = [];
  doc = default_doc;
  logs = [];
  calls = [];
}

abbrev waiting : Session box
waiting = session "cruz" (("b.json", some (obj eval_job)) ∷ (".a.json", none) ∷ [])

picks_b : oldest_job waiting.queue ≡ some "b.json"
unfolding oldest_job
picks_b = refl

reads_b : read_job "b.json" waiting.queue ≡ some (obj eval_job)
unfolding read_job
reads_b = refl

decided :
    (free : ℕ)
    → (v : Check) × (validate_job whole free (obj (insert "_path" (str "b.json") eval_job)) ≡ ok v)
unfolding validate_job check_eval in_dict is_text presets engines insert lookup has_key check_engine
    check_with_preset check_workers runner_carries workers_of default_workers
decided free = (accepted, refl)

main-Accounted_example :
    (code : ℕ) × ((main whole box false waiting).0 ≡ ok code)
    × Accounted whole box waiting.host "b.json" waiting.queue [] none
        (insert "_path" (str "b.json") eval_job)
        code
        (main whole box false waiting).1
main-Accounted_example =
    main-Accounted whole box box-Writable waiting "b.json" eval_job picks_b reads_b decided

validate_job-iff-IsValid_example :
    (validate_job whole 900 (obj eval_job) ≡ ok accepted) ↔ IsValid whole 900 eval_job
validate_job-iff-IsValid_example = validate_job-iff-IsValid whole 900 eval_job

main-IsBounded_example : Keeps (IsBounded {H = box}) (main whole box false)
main-IsBounded_example = main-IsBounded whole box false

-- Nothing to do, behind a switch away from the baseline.
abbrev drifted : Session box
drifted = record (session "cruz" []) {
  status = some (record default_doc { off_baseline = some true; log_tail = "off" ∷ [] });
}

no_job : oldest_job drifted.queue ≡ none
unfolding oldest_job
no_job = refl

main-Resumed_example :
    let t = (main whole box false drifted).1 in
    ((main whole box false drifted).0 ≡ ok 0)
    × (t.status ≡ some t.doc)
    × Resumed (document box drifted.status) t.doc
    × (t.calls ≡ drifted.calls)
    × (t.queue ≡ drifted.queue)
    × (t.done ≡ drifted.done)
    × (t.history ≡ drifted.history)
main-Resumed_example = main-Resumed whole box box-Writable drifted no_job

restore-serve_example :
    Told box
      (some (not (is_baseline box (live_engine box "cruz").0.target)))
      waiting.doc.restored_to
      []
      (restore box true "none" waiting).1
restore-serve_example = restore-serve box box-Writable "none" waiting

restore-Restoration_example :
    ((restore box false "cruz" waiting).0 ≡ ok tt)
    × Restoration box "cruz"
        (live_engine box "cruz").0.target
        waiting.doc.restored_to
        []
        (restore box false "cruz" waiting).1
restore-Restoration_example = restore-Restoration box box-Writable "cruz" waiting

token_ok-iff-Carries_example :
    (token_ok (read_token (some "s3cret ")) (some "Bearer s3cret") ≡ ok true)
    ↔ Carries (some "s3cret ") (some "Bearer s3cret")
token_ok-iff-Carries_example = token_ok-iff-Carries (some "s3cret ") (some "Bearer s3cret")

job_public_view-hides-token_example :
    (lookup "token" (job_public_view eval_job) ≡ none)
    × ((key : String) → key ≢ "token" → lookup key (job_public_view eval_job) ≡ lookup key eval_job)
job_public_view-hides-token_example = job_public_view-hides-token eval_job

-- A box with a clock, on which the runner never ends.
abbrev pub slow_box : Host ℕ
slow_box = record {
  State = ℕ;
  subprocess = λ cmd timeout now. (completed (pos 1) "" "", now);
  urlopen = λ request now. (ok none, now);
  maps = λ pid now. (none, now);
  dist_dirs = λ pattern now. ([], now);
  disk_usage = λ now. (none, now);
  file_error = λ now. (none, now);
  popen = λ cmd now. (none, now);
  poll = λ now. (none, now);
  terminate = λ now. (tt, now);
  kill = λ now. (tt, now);
  sleep = λ n now. (tt, now + n * 1000);
  time = λ now. (now, now);
  cached_gb = λ repo now. (none, now);
  count_rows = λ run_id now. (some 3, now);
  read_log = λ path now. (some "row", now);
  exists = λ path now. (false, now);
  read_json = λ path now. (none, now);
}

slow_Clock : Clock slow_box
slow_Clock = record {
  on_disk_usage = λ now. omega arith;
  on_cached_gb = λ repo now. omega arith;
  clock = λ now. now;
  reads = λ now. refl;
  on_time = λ now. omega arith;
  on_sleep = λ n now. omega arith;
  on_poll = λ now. omega arith;
  on_read_log = λ path now. omega arith;
  on_count_rows = λ run_id now. omega arith;
  on_file = λ now. omega arith;
}

abbrev waiting_long : Session slow_box
waiting_long = record {
  host = 500;
  queue = [];
  done = [];
  history = none;
  status = none;
  published = [];
  doc = default_doc;
  logs = [];
  calls = [];
}

wait_runner-returns_example :
    (end : Option ℤ × Bool) × ((wait_runner slow_box (1800 + 2) "a.log" "a" 500 1800 waiting_long).0
      ≡ ok (some end))
unfolding slow_Clock
wait_runner-returns_example =
    wait_runner-returns slow_box (λ now. refl) slow_Clock "a.log" "a" 500 1800 waiting_long
      (omega arith)

abbrev switch_job : Fields ℕ
switch_job = field "engine" (str "tensorfold-glm53") end

names_glm53 : lookup "engine" switch_job ≡ some (str "tensorfold-glm53")
unfolding lookup
names_glm53 = refl

glm53_token : engine_switch {F = ℕ} (str "tensorfold-glm53") ≡ ok (some "glm53")
unfolding engine_switch find_key engines
glm53_token = refl

not_current : ◌≢◌ {A = String} "tensorfold-glm53" "current"
not_current e = cc

switches : (do_switch box switch_job waiting).0 ≡ ok tt
unfolding do_switch is_text lookup find_key engines switch_value_for live_engine listener_pid
    split_lines run_output strip vllm_build text_at serving active_unit running_container log set
    engine_switch switch_to run_serve run ending probe_generation answers log_all served_id
    catalogue
switches = refl

do_switch-Landed_example :
    Landed box (str "tensorfold-glm53") (some "glm53") waiting (do_switch box switch_job waiting).1
do_switch-Landed_example =
    do_switch-Landed box switch_job "tensorfold-glm53" (some "glm53") waiting names_glm53
      not_current glm53_token switches

-- The text of the file that comes first is a JSON list.
abbrev blocked : Session box
blocked = session "glm53" (("a.json", some (arr nil)) ∷ ("b.json", some (obj eval_job)) ∷ [])

picks_list : oldest_job blocked.queue ≡ some "a.json"
unfolding oldest_job
picks_list = refl

reads_list : read_job "a.json" blocked.queue ≡ some (arr nil)
unfolding read_job
reads_list = refl

no_object : (d : Fields ℕ) → arr nil ≢ obj d
no_object d e = cc

main-crashes_example :
    ((main whole box false blocked).0 ≡ raised type_error)
    × Untouched blocked (main whole box false blocked).1
main-crashes_example =
    main-crashes whole box box-Writable "a.json" (arr nil) blocked picks_list reads_list no_object

wait_download-settles_example :
    Settled (wait_download whole slow_box 14402 "owner/pack" 500 0 waiting_long).0
unfolding slow_Clock
wait_download-settles_example =
    wait_download-settles whole slow_box (λ now. refl) slow_Clock "owner/pack" 500 0 waiting_long
      (omega arith)
