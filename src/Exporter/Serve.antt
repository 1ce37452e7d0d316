-- ===== src/Exporter/Serve.antt =====
-- do_GET of zgx_exporter.py.
use runboard_lcp.Base.{ℕ, String, ◌==◌, if◌then◌else◌}
use runboard_lcp.Base.Try.{Try, ok, ◌>>=◌}
use runboard_lcp.Core.JobId.{Texts}
use runboard_lcp.Exporter.Collect.{Numbers, Scrape, collect}
use text.Mathlib.Text.{starts_with}

-- The status, the content type and the body.
pub record Reply : Type 0 where
  pub status : ℕ
  pub content_type : String
  pub body : String

-- What the scrape finds is asked for on the metrics route only; where `collect` raises, no response is sent.
unfoldable pub do_get :
    {F : Type 0} → (t : Texts F) → (n : Numbers t) → Scrape t n → String → Try Reply
unfolding collect
do_get t n found path =
    let page = collect t n found in
    if starts_with path "/metrics"
    then (do
      body ← page
      ok (record { status = 200; content_type = "text/plain; version=0.0.4"; body = body }))
    else if path == "/health"
    then ok (record { status = 200; content_type = "application/json"; body = "{\"ok\":true}" })
    else ok (record { status = 404; content_type = ""; body = "" })
