-- ===== src/Server/Chrome.antt =====
-- `nav_html` and `inject` of ui_chrome.py. The stylesheet and the script that stand in the module as
-- two long texts are arguments.
use runboard_lcp.Base.{
  String, ◌<>◌, Option, none, some, List, [], ◌∷◌, ◌==◌, contains, if◌then◌else◌,
}
use runboard_lcp.Base.Assoc.{find_key}
use runboard_lcp.Base.Try.{Try, ok, raised, value_error}
use runboard_lcp.Core.JobId.{join}
use Prim.Native.String.{slice, len}
use Prim.Native.Nat.{◌+◌}
use text.Mathlib.Text.{find?}

abbrev pub marker : String
marker = "<!--ZgX:chrome-->"

abbrev pub marker_head : String
marker_head = "<!--ZgX:chrome-head-->"

abbrev pub marker_js : String
marker_js = "<!--ZgX:chrome-js-->"

unfoldable pub views : List (String × String)
views = ("/", "load telemetry") ∷ ("/console", "console") ∷ ("/history", "quant history") ∷ []

unfoldable pub view_aliases : List (String × String)
view_aliases =
    ("/", "/")
    ∷ ("/index.html", "/")
    ∷ ("/console", "/console")
    ∷ ("/console.html", "/console")
    ∷ ("/history", "/history")
    ∷ ("/history.html", "/history")
    ∷ []

abbrev or_same : String → Option String → String
or_same path none = path
or_same path (some key) = key

unfoldable pub canonical : String → String
unfolding find_key view_aliases
canonical path = or_same path (find_key path view_aliases)

unfoldable pub view_label : String → String
unfolding canonical find_key views
view_label path = or_same (canonical path) (find_key (canonical path) views)

nav_links : String → List (String × String) → List String
nav_links active [] = []
nav_links active ((href, label) ∷ rest) =
    (if href == active
      then "<a class=\"badge on\" href=\"" <> href <> "\" aria-current=\"page\">" <> label <> "</a>"
      else "<a class=\"badge\" href=\"" <> href <> "\">" <> label <> "</a>")
    ∷ nav_links active rest

unfoldable pub nav_html : String → String
unfolding view_label nav_links
nav_html path =
    "<h1>ZGX · "
    <> view_label (canonical path)
    <> "</h1>"
    <> "<nav class=\"views\" aria-label=\"views\">"
    <> join "" (nav_links (canonical path) views)
    <> "</nav>"
    <> "<div class=\"strip\" id=\"zgx-strip\" aria-live=\"polite\">reading /api/live…</div>"

-- `text.replace(part, new, 1)`
unfoldable pub replace_once : String → String → String → String
replace_once text part new = elim (find? text part) [
  | none ↦ text
  | some i ↦ slice text 0 i <> new <> slice text (i + len part) (len text)
]

unfoldable pub missing_in : List String → String → List String
missing_in [] html = []
missing_in (m ∷ ms) html =
    let rest = missing_in ms html in if contains html m then rest else m ∷ rest

unfoldable pub inject : (css js : String) → String → String → Try String
unfolding missing_in replace_once nav_html
inject css js html active = elim (missing_in (marker_head ∷ marker ∷ marker_js ∷ []) html) [
  | (m ∷ ms) ↦ raised value_error
  | [] ↦
      let styled = replace_once html marker_head ("<style>" <> css <> "</style>") in
      ok (replace_once (replace_once styled marker (nav_html active)) marker_js js)
]
