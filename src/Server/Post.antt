-- ===== src/Server/Post.antt =====
-- `do_POST` of live_server.py.
pub mod Guard
use Prim.Native.Char.{Char, code}
use runboard_lcp.Base.{
  ℕ, zero, suc, String, ◌<>◌, Bool, true, false, not, ◌||◌, Option, none, some, ◌==◌, ◌=ℕ=◌,
  has_char, is_empty, strip, parse_nat, if◌then◌else◌,
}
use runboard_lcp.Base.Act.{◌>>=◌, ◌>>◌, pure, raise, gets, match_option}
use runboard_lcp.Base.Int.{ℤ, pos, negsuc, between}
use runboard_lcp.Base.Try.{Error, Try, ok, raised, attribute_error, type_error}
use runboard_lcp.Core.Disk.{Check, Refusal, accepted, refused, disk_free_gb}
use runboard_lcp.Core.Floats.{Floats}
use runboard_lcp.Core.JobId.{Texts, str_of, new_job_id}
use runboard_lcp.Core.Jobs.{get_or, validate_job}
use runboard_lcp.Core.Token.{read_token, token_ok}
use runboard_lcp.Dispatcher.Queue.{put_file}
use runboard_lcp.Host.{Host}
use runboard_lcp.Json.{Json, obj, str, Fields, lookup, insert}
use runboard_lcp.Server.Desk.{Desk, Serve, on_box, touch, update, lift, auth_log}

-- A request: the path of its URL, the two headers, what its body parses to (`none` where it is no
-- JSON), and the client's address. `stamp` and `created` are the texts of the time.
pub record Request (F : Type 0) : Type 0 where
  pub path : String
  pub content_length : Option String
  pub authorization : Option String
  pub body : Option (Json F)
  pub addr : String
  pub stamp : String
  pub created : String

pub data Reply (F : Type 0) : Type 0 where
  no_route bad_length not_configured unauthorized bad_json : Reply F
  rejected : Refusal → Fields F → Reply F
  queued : Fields F → Reply F

unfoldable pub status_code : {F : Type 0} → Reply F → ℕ
status_code no_route = 404
status_code bad_length = 400
status_code not_configured = 503
status_code unauthorized = 401
status_code bad_json = 400
status_code (rejected why job) = 422
status_code (queued job) = 202

-- `path in ("/api/dispatch", "/api/download")`
abbrev pub is_route : String → Bool
is_route path = (path == "/api/dispatch") || (path == "/api/download")

abbrev negative : ℕ → ℤ
negative zero = pos 0
negative (suc n) = negsuc n

-- `int(text)` on a sign and decimal digits; `none` where it raises.
unfoldable pub parse_int : String → Option ℤ
parse_int s = signed (strip s)
  where
    with_sign : (ℕ → ℤ) → Option ℕ → Option ℤ
    with_sign f none = none
    with_sign f (some n) = some (f n)

    signed : String → Option ℤ
    signed String.[] = none
    signed (String.◌∷◌ c s) =
        if code c =ℕ= b'-'
        then with_sign negative (parse_nat s)
        else if code c =ℕ= b'+'
        then with_sign pos (parse_nat s)
        else with_sign pos (parse_nat (String.◌∷◌ c s))

abbrev or_zero : Option ℤ → ℤ
or_zero none = pos 0
or_zero (some n) = n

-- `int(self.headers.get("Content-Length") or 0)`, and 0 where it raises.
unfoldable pub length_of : Option String → ℤ
unfolding parse_int
length_of none = pos 0
length_of (some text) = if is_empty text then pos 0 else or_zero (parse_int text)

-- MAX_BODY
abbrev pub max_body : ℕ
max_body = 65536

-- `text.replace("/", "_")`
unfoldable pub replace_slashes : String → String
replace_slashes String.[] = String.[]
replace_slashes (String.◌∷◌ c s) =
    let rest = replace_slashes s in if code c =ℕ= b'/' then "_" <> rest else String.◌∷◌ c rest

module _ {F : Type 0} where
  -- `d.setdefault(k, v)`
  unfoldable pub set_default : String → Json F → Fields F → Fields F
  set_default k v d = elim (lookup k d) [ none ↦ insert k v d | some w ↦ d ]

  module _ (t : Texts F) where
    unfoldable pub dispatch_job : Request F → Fields F → Fields F
    unfolding set_default
    dispatch_job q d =
        let job = set_default "engine" (str "current") (set_default "action" (str "eval") d) in
        set_default "job_id"
          (str (new_job_id t q.stamp "eval" (str_of t (get_or "preset" (str "") job)))) job

    unfoldable pub download_job : Request F → Fields F → Fields F
    unfolding set_default replace_slashes
    download_job q d =
        let job = insert "action" (str "download") d in
        set_default "job_id"
          (str
            (new_job_id t q.stamp "dl" (replace_slashes (str_of t (get_or "repo" (str "") job)))))
          job

    -- The job that a body becomes.
    unfoldable pub prepare : Request F → Fields F → Fields F
    unfolding dispatch_job download_job set_default
    prepare q d =
        let job = if q.path == "/api/dispatch" then dispatch_job q d else download_job q d in
        insert "_queued_from" (str q.addr) (set_default "created_utc" (str q.created) job)

    -- The name of the job's file.
    unfoldable pub file_name : Fields F → String
    file_name job = str_of t (get_or "job_id" (str "") job) <> ".json"

module _ (fl : Floats) (t : Texts fl.F) (H : Host fl.F) where
  open fl use {F}

  -- A name with a slash is a path that leaves the queue folder.
  unfoldable pub write_job : String → Fields F → Desk H → Desk H
  write_job name job s =
      if has_char b'/' name
      then record s { elsewhere = put_file name (some (obj job)) s.elsewhere }
      else record s { queue = put_file name (some (obj job)) s.queue }

  -- Making the folder, writing the temporary file, and putting it in place.
  unfoldable pub store : Fields F → Serve H (Reply F)
  unfolding write_job file_name
  store job = do
    touch H
    touch H
    touch H
    update H (write_job (file_name t job) job)
    auth_log H "QUEUED"
    pure (queued job)

  unfoldable pub on_verdict : Fields F → Check → Serve H (Reply F)
  unfolding store
  on_verdict job accepted = store job
  on_verdict job (refused why) = do auth_log H "REJECT"; pure (rejected why job)

  unfoldable pub enqueue : Fields F → Serve H (Reply F)
  unfolding on_verdict
  enqueue job = do
    free ← on_box H H.disk_usage
    verdict ← lift H (validate_job fl (disk_free_gb fl free) (obj job))
    on_verdict job verdict

  -- A body that parses to no object: a list or a text has no `setdefault`, and takes no key.
  unfoldable pub with_body : Request F → Option (Json F) → Serve H (Reply F)
  unfolding prepare enqueue
  with_body q none = pure bad_json
  with_body q (some (obj d)) = enqueue (prepare t q d)
  with_body q (some v) = raise (if q.path == "/api/dispatch" then attribute_error else type_error)

  unfoldable pub with_token : Request F → Option String → Serve H (Reply F)
  unfolding with_body
  with_token q none = do auth_log H "REFUSED"; pure not_configured
  with_token q (some want) = do
    allowed ← lift H (token_ok (some want) q.authorization)
    if allowed then with_body q q.body else (do auth_log H "DENIED"; pure unauthorized)

  unfoldable pub do_post : Request F → Serve H (Reply F)
  unfolding with_token
  do_post q =
      if not (is_route q.path)
      then pure no_route
      else if not (between 1 max_body (length_of q.content_length))
      then pure bad_length
      else (do token ← gets (λ s. s.token); with_token q (read_token token))
