-- ===== src/Server/Get.antt =====
-- `do_GET` and `_page` of live_server.py: which route a path takes, what is checked of its arguments,
-- and the answers that the server makes itself. The documents of the state, of the live panel and of
-- the Hub are made by other modules: an answer names them with their arguments.
pub mod Gate
use Prim.Native.Char.{code}
use runboard_lcp.Base.{
  ℕ, String, Bool, true, false, not, ◌||◌, Option, none, some, List, [], ◌∷◌, ltb, leb, ◌==◌,
  is_empty, strip, has_char, if◌then◌else◌,
}
use runboard_lcp.Base.Assoc.{find_key}
use runboard_lcp.Base.Int.{ℤ, pos, negsuc}
use runboard_lcp.Base.Try.{Error, Try, ok, raised, value_error, ◌>>=◌}
use runboard_lcp.Core.Token.{read_token, bearer, token_ok}
use runboard_lcp.Dispatcher.Queue.{names, sort_names}
use runboard_lcp.Host.{Host}
use runboard_lcp.Json.{Json}
use runboard_lcp.Server.Chrome.{inject}
use runboard_lcp.Server.Desk.{Desk}
use runboard_lcp.Server.Post.{parse_int}
use text.Mathlib.Text.{starts_with}

pub data Route : Type 0 where
  state history models live token_check dispatch hub_search hub_plan : Route
  console_page history_page index_page health not_found : Route

-- The chain of tests on the path.
unfoldable pub route_of : String → Route
route_of path =
    if starts_with path "/api/state"
    then state
    else if starts_with path "/api/history"
    then history
    else if starts_with path "/api/models"
    then models
    else if starts_with path "/api/live"
    then live
    else if starts_with path "/api/token/check"
    then token_check
    else if starts_with path "/api/dispatch"
    then dispatch
    else if starts_with path "/api/hf/search"
    then hub_search
    else if starts_with path "/api/hf/plan"
    then hub_plan
    else if (path == "/console") || (path == "/console.html")
    then console_page
    else if (path == "/history") || (path == "/history.html")
    then history_page
    else if (path == "/") || (path == "/index.html")
    then index_page
    else if path == "/health"
    then health
    else not_found

-- What /api/token/check says.
pub record TokenCheck : Type 0 where
  pub configured : Bool
  pub presented : Bool
  pub is_ok : Bool

abbrev is_some : Option String → Bool
is_some none = false
is_some (some v) = true

-- `file` is the text of the token file.
unfoldable pub check_token : Option String → Option String → Try TokenCheck
check_token file header = do
  allowed ← token_ok (read_token file) header
  ok (record {
    configured = is_some (read_token file);
    presented = not (is_empty (bearer header));
    is_ok = allowed;
  })

-- A query: `parse_qs` gives each key a list that is not empty.
abbrev pub Query : Type 0
Query = List (String × List String)

abbrev first_or : String → Option (List String) → String
first_or v none = v
first_or v (some []) = v
first_or v (some (w ∷ ws)) = w

-- `(q.get(key) or [default])[0]`
unfoldable pub argument : String → String → Query → String
argument key default q = first_or default (find_key key q)

-- `max(1, min(limit, 40))`
unfoldable pub clamp : ℤ → ℕ
clamp (pos n) = if ltb n 1 then 1 else if ltb 40 n then 40 else n
clamp (negsuc n) = 1

abbrev clamp_or : Option ℤ → ℕ
clamp_or none = 12
clamp_or (some n) = clamp n

-- The limit of a search; 12 where the argument is no integer.
unfoldable pub search_limit : Query → ℕ
unfolding argument clamp
search_limit q = clamp_or (parse_int (argument "limit" "12" q))

pub data Answer : Type 0 where
  state_document history_file models_file : Answer
  live_document : Option String → Answer
  token_state : TokenCheck → Answer
  queue_listing : List String → Answer
  search_results : String → ℕ → Answer
  plan : String → Answer
  missing_query bad_repo : Answer
  page : String → Answer
  broken_page missing_page : Answer
  healthy no_such_page : Answer

-- The code, where the module that makes the document does not fail.
unfoldable pub answer_code : Answer → ℕ
answer_code missing_query = 400
answer_code bad_repo = 400
answer_code broken_page = 500
answer_code missing_page = 500
answer_code no_such_page = 404
answer_code a = 200

-- `(q.get("window") or [None])[0]`
abbrev window_of : Option (List String) → Option String
window_of none = none
window_of (some []) = none
window_of (some (w ∷ ws)) = some w

unfoldable pub search_answer : Query → Answer
unfolding argument search_limit
search_answer q =
    let query = strip (argument "q" "" q) in
    if is_empty query then missing_query else search_results query (search_limit q)

unfoldable pub plan_answer : Query → Answer
unfolding argument
plan_answer q =
    let repo = strip (argument "repo" "" q) in if has_char b'/' repo then plan repo else bad_repo

-- `_page`: `text` is the page's file, `none` where it cannot be read.
unfoldable pub page_answer : (css js : String) → Option String → String → Answer
page_answer css js none active = missing_page
page_answer css js (some text) active = elim (inject css js text active) [
  | ok html ↦ page html
  | raised e ↦ broken_page
]

-- The files of the three pages, and the frame's two texts.
pub record Pages : Type 0 where
  pub css : String
  pub js : String
  pub file : String → Option String

module _ {F : Type 0} (H : Host F) (pages : Pages) where
  unfoldable pub answer_route : Route → Query → Option String → Desk H → Try Answer
  unfolding check_token search_answer plan_answer page_answer
  answer_route state q header s = ok state_document
  answer_route history q header s = ok history_file
  answer_route models q header s = ok models_file
  answer_route live q header s = ok (live_document (window_of (find_key "window" q)))
  answer_route token_check q header s = do t ← check_token s.token header; ok (token_state t)
  answer_route dispatch q header s = ok (queue_listing (sort_names (names s.queue)))
  answer_route hub_search q header s = ok (search_answer q)
  answer_route hub_plan q header s = ok (plan_answer q)
  answer_route console_page q header s =
      ok (page_answer pages.css pages.js (pages.file "console.html") "/console")
  answer_route history_page q header s =
      ok (page_answer pages.css pages.js (pages.file "history.html") "/history")
  answer_route index_page q header s =
      ok (page_answer pages.css pages.js (pages.file "index.html") "/")
  answer_route health q header s = ok healthy
  answer_route not_found q header s = ok no_such_page

  unfoldable pub do_get : String → Query → Option String → Desk H → Try Answer
  unfolding answer_route route_of
  do_get path q header s = answer_route (route_of path) q header s
