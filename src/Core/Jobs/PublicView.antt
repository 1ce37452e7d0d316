-- ===== src/Core/Jobs/PublicView.antt =====
-- What the page sees of a job.
use runboard_lcp.Base.{String, ◌≡◌, ◌≢◌, none, arith, eq_iff}
use runboard_lcp.Core.Jobs.{job_public_view}
use runboard_lcp.Json.{Fields, lookup, lookup-without}

-- The public view of a job has no token, and all else in it is as in the job.
pub job_public_view-hides-token :
    {F : Type 0} (job : Fields F)
    → (lookup "token" (job_public_view job) ≡ none)
      × ((key : String) → key ≢ "token" → lookup key (job_public_view job) ≡ lookup key job)
unfolding job_public_view
job_public_view-hides-token job = (
  ground (arith, lookup-without "token" "token" job),
  λ key other. ground (arith, lookup-without "token" key job, eq_iff "token" key),
)
