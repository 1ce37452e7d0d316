-- ===== src/Server/Post/Guard.antt =====
-- What stands in front of a job file that `do_POST` writes.
use runboard_lcp.Base.{
  String, [], ◌∷◌, ◌++◌, Bool, true, false, not, Option, none, some, ◌≡◌, refl, ◌∙◌, arith,
  if◌then◌else◌,
}
use runboard_lcp.Base.Act.{◌>>=◌, ◌>>◌, pure, gets}
use runboard_lcp.Base.Act.Keeps.{Keeps, keeps_rules}
use runboard_lcp.Base.Act.Leaves.{Leaves, Leaves-keep, Leaves-bind, Leaves-result}
use runboard_lcp.Base.Int.{between}
use runboard_lcp.Base.Run.{Run}
use runboard_lcp.Base.Try.{ok}
use runboard_lcp.Core.Disk.{Check, accepted, refused, disk_free_gb}
use runboard_lcp.Core.Floats.{Floats}
use runboard_lcp.Core.JobId.{Texts}
use runboard_lcp.Core.Jobs.{validate_job}
use runboard_lcp.Core.Jobs.Valid.{IsValid, validate_job-iff-IsValid}
use runboard_lcp.Core.Token.{read_token, token_ok}
use runboard_lcp.Core.Token.Closed.{Carries, token_ok-iff-Carries}
use runboard_lcp.Dispatcher.Session.{Folder}
use runboard_lcp.Host.{Host}
use runboard_lcp.Json.{Json, obj, Fields}
use runboard_lcp.Server.Desk.{Desk, on_box, touch, update, auth_log}
use runboard_lcp.Server.Post.{
  Request, Reply, queued, rejected, not_configured, unauthorized, no_route, bad_length, is_route,
  length_of, max_body, prepare, file_name, write_job, store, on_verdict, enqueue, with_body,
  with_token, do_post,
}

-- The files are as given.
pub record Files {F : Type 0} {H : Host F} (token : Option String) (queue elsewhere : Folder F)
    (s : Desk H) : Type 0 where
  pub token_same : s.token ≡ token
  pub queue_same : s.queue ≡ queue
  pub elsewhere_same : s.elsewhere ≡ elsewhere

module _ {F : Type 0} (H : Host F) (token : Option String) (queue elsewhere : Folder F) where
  abbrev Same : Desk H → Type 0
  Same = Files token queue elsewhere

  on_box-Same : {A : Type 0} (m : Run H.State A) → Keeps Same (on_box H m)
  on_box-Same m = record { at = λ s p. ground arith }

  touch-Same : Keeps Same (touch H)
  touch-Same = record { at = λ s p. ground arith }

  note-Same : (line : String) → Keeps Same (update H (λ s. record s { auth = s.auth ++ line ∷ [] }))
  note-Same line = record { at = λ s p. ground arith }

  auth_log-Same : (line : String) → Keeps Same (auth_log H line)
  unfolding auth_log
  auth_log-Same line = search (keeps_rules, touch-Same, note-Same)

module _ (fl : Floats) (t : Texts fl.F) (H : Host fl.F) where
  open fl use {F}

  -- The job is in the file of its name, and no other file has changed.
  pub record Stored (queue elsewhere : Folder F) (job : Fields F) (s : Desk H) : Type 0 where
    pub before : Desk H
    pub queue_before : before.queue ≡ queue
    pub elsewhere_before : before.elsewhere ≡ elsewhere
    pub queue_is : s.queue ≡ (write_job fl t H (file_name t job) job before).queue
    pub elsewhere_is : s.elsewhere ≡ (write_job fl t H (file_name t job) job before).elsewhere

  -- What a request leaves: the files as they were, or the one job of a request that passed each gate.
  pub data Outcome (q : Request F) (token : Option String) (queue elsewhere : Folder F) (s : Desk H)
      : Type 0 where
    untouched : Files token queue elsewhere s → Outcome q token queue elsewhere s
    written :
        (d : Fields F) (free : F)
        → is_route q.path ≡ true
        → between 1 max_body (length_of q.content_length) ≡ true
        → Carries token q.authorization
        → q.body ≡ some (obj d)
        → IsValid fl free (prepare t q d)
        → Stored queue elsewhere (prepare t q d) s
        → Outcome q token queue elsewhere s

  module _ (q : Request F) (token : Option String) (queue elsewhere : Folder F) where
    abbrev Same' : Desk H → Type 0
    Same' = Files token queue elsewhere

    abbrev Out : Desk H → Type 0
    Out = Outcome q token queue elsewhere

    log-Same : (line : String) → Keeps Same' (auth_log H line)
    log-Same = auth_log-Same H token queue elsewhere

    replied : (line : String) (r : Reply F) → Keeps Same' (do auth_log H line; pure r)
    replied line r = search (keeps_rules, log-Same)

    module _ (on_route : is_route q.path ≡ true)
        (short : between 1 max_body (length_of q.content_length) ≡ true)
        (carries : Carries token q.authorization) (d : Fields F)
        (parsed : q.body ≡ some (obj d)) where
      abbrev job : Fields F
      job = prepare t q d

      Stored-auth_log : (line : String) → Keeps (Stored queue elsewhere job) (auth_log H line)
      Stored-auth_log line = record {
        at = λ s p.
            let same =
              (auth_log-Same H s.token s.queue s.elsewhere line).at s
                (record { token_same = refl; queue_same = refl; elsewhere_same = refl }) in
            record {
              before = p.before;
              queue_before = p.queue_before;
              elsewhere_before = p.elsewhere_before;
              queue_is = same.queue_same ∙ p.queue_is;
              elsewhere_is = same.elsewhere_same ∙ p.elsewhere_is;
            };
      }

      done : Keeps (Stored queue elsewhere job) (do auth_log H "QUEUED"; pure (queued job))
      done = search (keeps_rules, Stored-auth_log)

      store-Leaves : (free : F) → IsValid fl free job → Leaves Same' Out (store fl t H job)
      unfolding store
      store-Leaves free v =
          Leaves-bind (λ s p. untouched p) (touch H) _ (touch-Same H token queue elsewhere)
            λ _.
              Leaves-bind (λ s p. untouched p) (touch H) _ (touch-Same H token queue elsewhere)
                λ _.
                  Leaves-bind (λ s p. untouched p) (touch H) _ (touch-Same H token queue elsewhere)
                    λ _. record {
                      at = λ s p. written d free on_route short carries parsed v (
                          done.at (write_job fl t H (file_name t job) job s) (record {
                            before = s;
                            queue_before = p.queue_same;
                            elsewhere_before = p.elsewhere_same;
                            queue_is = refl;
                            elsewhere_is = refl;
                          }));
                    }

      on_verdict-Leaves :
          (free : F) (v : Check)
          → validate_job fl free (obj job) ≡ ok v
          → Leaves Same' Out (on_verdict fl t H job v)
      unfolding on_verdict
      on_verdict-Leaves free accepted e =
          store-Leaves free ((validate_job-iff-IsValid fl free job).0 e)
      on_verdict-Leaves free (refused why) e =
          Leaves-keep (λ s p. untouched p) _ (replied "REJECT" (rejected why job))

      enqueue-Leaves : Leaves Same' Out (enqueue fl t H job)
      unfolding enqueue
      enqueue-Leaves =
          Leaves-bind (λ s p. untouched p) (on_box H H.disk_usage) _
            (on_box-Same H token queue elsewhere H.disk_usage)
            λ free.
              Leaves-result (λ s p. untouched p) (validate_job fl (disk_free_gb fl free) (obj job))
                (on_verdict fl t H job) (on_verdict-Leaves (disk_free_gb fl free))

    module _ (on_route : is_route q.path ≡ true)
        (short : between 1 max_body (length_of q.content_length) ≡ true) where
      with_body-Leaves :
          (b : Option (Json F))
          → q.body ≡ b
          → Carries token q.authorization
          → Leaves Same' Out (with_body fl t H q b)
      unfolding with_body
      with_body-Leaves none e c = record { at = λ s p. untouched p }
      with_body-Leaves (some (obj d)) e c = enqueue-Leaves on_route short c d e
      with_body-Leaves (some v) e c = record { at = λ s p. untouched p }

      with_token-Leaves :
          (want : Option String)
          → read_token token ≡ want
          → Leaves Same' Out (with_token fl t H q want)
      unfolding with_token
      with_token-Leaves none e =
          Leaves-keep (λ s p. untouched p) _ (replied "REFUSED" not_configured)
      with_token-Leaves (some want) e =
          Leaves-result (λ s p. untouched p) (token_ok (some want) q.authorization) _ by_token
        where
          by_token :
              (allowed : Bool)
              → token_ok (some want) q.authorization ≡ ok allowed
              → Leaves Same' Out (
                  if allowed
                  then with_body fl t H q q.body
                  else (do auth_log H "DENIED"; pure unauthorized))
          by_token false r = Leaves-keep (λ s p. untouched p) _ (replied "DENIED" unauthorized)
          by_token true r =
              with_body-Leaves q.body refl ((token_ok-iff-Carries token q.authorization).0 (rw e r))

  -- A request changes no job file unless it passed each gate: it came to one of the two routes with a
  -- body of 1 to 65536 bytes, it carries the token of the token file, its body is an object, and
  -- the job that it becomes is valid. Then it writes that one job under its id, and no other file. This
  -- holds whether the handler returns or raises.
  pub do_post-Outcome :
      (q : Request F) (s : Desk H) → Outcome q s.token s.queue s.elsewhere (do_post fl t H q s).1
  unfolding do_post
  do_post-Outcome q s =
      by_route (is_route q.path) (between 1 max_body (length_of q.content_length)) refl refl
    where
      by_route :
          (route short : Bool)
          → is_route q.path ≡ route
          → between 1 max_body (length_of q.content_length) ≡ short
          → Outcome q s.token s.queue s.elsewhere
              ((if not route
                  then pure no_route
                  else if not short
                  then pure bad_length
                  else (do token ← gets (λ s. s.token); with_token fl t H q (read_token token)))
                s).1
      by_route false short p r =
          untouched (record { token_same = refl; queue_same = refl; elsewhere_same = refl })
      by_route true false p r =
          untouched (record { token_same = refl; queue_same = refl; elsewhere_same = refl })
      by_route true true p r =
          Leaves.at (with_token-Leaves q s.token s.queue s.elsewhere p r (read_token s.token) refl)
            s (record { token_same = refl; queue_same = refl; elsewhere_same = refl })
