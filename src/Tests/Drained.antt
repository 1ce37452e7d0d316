-- ===== src/Tests/Drained.antt =====
-- A queue that is worked off, and a request whose job is run.
use runboard_lcp.Base.{
  ℕ, ◌≡◌, ◌≢◌, ap, refl, true, false, has_char, is_space, any_eq, parse_nat, Option, none, some, [],
  ◌∷◌, arith, strip, lstrip,
}
use runboard_lcp.Base.Try.{ok}
use runboard_lcp.Core.Config.{presets, engines, default_workers}
use runboard_lcp.Base.Assoc.{has_key}
use runboard_lcp.Core.Disk.{accepted}
use runboard_lcp.Core.JobId.{Texts, str_of}
use runboard_lcp.Core.Jobs.{
  validate_job, check_eval, check_engine, check_with_preset, check_workers, runner_carries,
  workers_of, in_dict, is_text,
}
use runboard_lcp.Core.Token.{read_token, token_ok, bearer}
use runboard_lcp.Core.Token.Closed.{Carries}
use runboard_lcp.Dispatcher.Doc.{default_doc}
use runboard_lcp.Dispatcher.Main.{main}
use runboard_lcp.Dispatcher.Main.Accounts.{Ended}
use runboard_lcp.Dispatcher.Main.Drain.{Calm, AllJobs, ticks, ticks-drain}
use runboard_lcp.Dispatcher.Main.Posted.{do_post-main}
use runboard_lcp.Dispatcher.Queue.{oldest_job, read_job, put_file}
use runboard_lcp.Dispatcher.Session.{Folder, Session, ending}
use runboard_lcp.Json.{Json, Fields, obj, str, insert, lookup}
use runboard_lcp.Server.Desk.{Desk, auth_log}
use runboard_lcp.Server.Post.{Request, do_post, prepare, file_name, write_job, length_of}
use runboard_lcp.Tests.{whole, eval_job}
use runboard_lcp.Host.{Host, completed}
use runboard_lcp.Dispatcher.Clock.{Clock}
use Prim.Native.Nat.{◌+◌, ◌*◌, ◌<◌, suc, zero}
use runboard_lcp.Base.{is_empty, rstrip, Bool, String, List, ◌==◌, if◌then◌else◌}
use runboard_lcp.Base.Int.{pos}

-- A box on which `pgrep` finds the runner of an eval, from the start of its process to the end.
record Box : Type 0 where
  now : ℕ
  runs : Bool

-- What `pgrep` prints for the pattern of the eval's runner.
abbrev found_by : Option String → Bool → String
found_by (some pattern) true = if pattern == "q200_lite[.]py" then "4711" else ""
found_by pattern runs = ""

abbrev searched_for : List String → Option String
searched_for (cmd ∷ flag ∷ pattern ∷ []) = if cmd == "pgrep" then some pattern else none
searched_for cmd = none

abbrev worked_box : Host ℕ
worked_box = record {
  State = Box;
  subprocess = λ cmd timeout b. (completed (pos 1) (found_by (searched_for cmd) b.runs) "", b);
  urlopen = λ request b. (ok none, b);
  maps = λ pid b. (none, b);
  dist_dirs = λ pattern b. ([], b);
  disk_usage = λ b. (none, b);
  file_error = λ b. (none, b);
  popen = λ cmd b. (none, record b { runs = true });
  poll = λ b. (some (pos 0), record b { runs = false });
  terminate = λ b. (tt, b);
  kill = λ b. (tt, b);
  sleep = λ n b. (tt, record b { now = b.now + n * 1000 });
  time = λ b. (b.now, b);
  cached_gb = λ repo b. (none, b);
  count_rows = λ run_id b. (some 3, b);
  read_log = λ path b. (some "row", b);
  exists = λ path b. (false, b);
  read_json = λ path b. (none, b);
}

worked_Clock : Clock worked_box
worked_Clock = record {
  clock = λ b. b.now;
  reads = λ b. refl;
  on_time = λ b. omega arith;
  on_sleep = λ n b. omega arith;
  on_poll = λ b. omega arith;
  on_read_log = λ path b. omega arith;
  on_count_rows = λ run_id b. omega arith;
  on_disk_usage = λ b. omega arith;
  on_cached_gb = λ repo b. omega arith;
  on_file = λ b. omega arith;
}

abbrev IsFree : Box → Type 0
IsFree b = b.runs ≡ false

-- Nothing is found while nothing runs.
found_by-free : (pattern : Option String) → is_empty (strip (found_by pattern false)) ≡ true
unfolding strip lstrip rstrip
found_by-free none = refl
found_by-free (some pattern) = refl

worked_Calm : Calm whole worked_box IsFree
unfolding ending
worked_Calm = record {
  finds_nobody = λ pattern b is_user free. rw free (found_by-free (some pattern));
  on_search = λ pattern b free. free;
  on_file = λ b free. free;
  on_disk = λ b free. free;
}

abbrev one_job : Folder ℕ
one_job = ("c.json", some (obj eval_job)) ∷ []

abbrev session : Folder ℕ → Session worked_box
session queue = record {
  host = record { now = 500; runs = false };
  queue = queue;
  done = [];
  history = none;
  status = none;
  published = [];
  doc = default_doc;
  logs = [];
  calls = [];
}

listed_job : AllJobs whole one_job
unfolding AllJobs validate_job check_eval in_dict is_text presets engines insert lookup has_key
    check_engine check_with_preset check_workers runner_carries workers_of default_workers
listed_job = (record { fields = eval_job; parsed = refl; decided = λ free. (accepted, refl) }, tt)

reads_c : read_job "c.json" one_job ≡ some (obj eval_job)
unfolding read_job
reads_c = refl

-- The port is free when the tick starts.
nobody_at_first : (i : ℕ) → i < 1 → IsFree (ticks whole worked_box i (session one_job)).host
unfolding ticks
nobody_at_first zero below = refl
nobody_at_first (suc i) below = absurd (omega (arith, below))

ticks-drain_example :
    (oldest_job (ticks whole worked_box 1 (session one_job)).queue ≡ none)
    × (read_job "c.json" (ticks whole worked_box 1 (session one_job)).done ≡ some (obj eval_job))
ticks-drain_example =
    ticks-drain whole worked_box (λ h. refl) worked_Calm worked_Clock 1 (session one_job) listed_job
      (omega arith) nobody_at_first "c.json" (obj eval_job) refl reads_c

abbrev ascii : Texts ℕ
ascii = record { is_alnum = λ c. true; show = λ v. "?" }

abbrev desk : Desk worked_box
desk = record {
  host = record { now = 500; runs = false };
  token = some "s3cret";
  queue = [];
  elsewhere = [];
  auth = [];
}

abbrev request : Request ℕ
request = record {
  path = "/api/dispatch";
  content_length = some "20";
  authorization = some "Bearer s3cret";
  body = some (obj eval_job);
  addr = "192.168.1.9";
  stamp = "20260928T101500";
  created = "2026-09-28T10:15:00Z";
}

abbrev posted : Json ℕ
posted = obj (prepare ascii request eval_job)

posts : read_job "a1.json" (do_post whole ascii worked_box request desk).1.queue ≡ some posted
unfolding do_post read_job length_of strip parse_nat read_token token_ok bearer validate_job is_text
    lookup insert check_eval in_dict has_key presets check_engine engines check_with_preset
    check_workers default_workers workers_of runner_carries file_name put_file prepare write_job
    has_char is_space any_eq auth_log str_of
posts = refl

abbrev action_of : Json ℕ → Option (Json ℕ)
action_of (obj d) = lookup "action" d
action_of v = none

is_eval : action_of posted ≡ some (str "eval")
unfolding lookup prepare insert
is_eval = refl

no_download : (d : Fields ℕ) → posted ≡ obj d → lookup "action" d ≢ some (str "download")
no_download d same = let eval_too = ap action_of same in cc (eval_too, is_eval)

abbrev later : Session worked_box
later = session (("a1.json", some posted) ∷ [])

oldest : oldest_job later.queue ≡ some "a1.json"
unfolding oldest_job
oldest = refl

reads : read_job "a1.json" later.queue ≡ some posted
unfolding read_job
reads = refl

do_post-main_example :
    Carries (some "s3cret") (some "Bearer s3cret")
    × (job : Fields ℕ) × (posted ≡ obj job)
    × (code : ℕ) × ((main whole worked_box false later).0 ≡ ok code)
    × Ended whole worked_box "a1.json" later.queue [] none
        (insert "_path" (str "a1.json") job)
        code
        (main whole worked_box false later).1
unfolding read_job
do_post-main_example =
    do_post-main whole ascii worked_box (λ h. refl) worked_Clock worked_Calm request desk "a1.json"
      posted refl posts no_download later oldest reads refl
