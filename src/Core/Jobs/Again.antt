-- ===== src/Core/Jobs/Again.antt =====
-- A job that passed validation once, validated again.
use runboard_lcp.Base.{String, ◌≡◌, ◌≢◌, ◌∙◌, some}
use runboard_lcp.Base.Try.{ok}
use runboard_lcp.Core.Config.{Preset}
use runboard_lcp.Core.Disk.{accepted}
use runboard_lcp.Core.Floats.{Floats}
use runboard_lcp.Core.Jobs.{validate_job}
use runboard_lcp.Core.Jobs.Valid.{KnownEngine, WorkersFit, IsValid, validate_job-iff-IsValid}
use runboard_lcp.Json.{obj, str, Fields, lookup, insert, lookup-insert}

module _ {F : Type 0} (d e : Fields F) where
  -- The keys that validation reads are the same.
  pub record SameJob : Type 0 where
    pub action : lookup "action" e ≡ lookup "action" d
    pub preset : lookup "preset" e ≡ lookup "preset" d
    pub engine : lookup "engine" e ≡ lookup "engine" d
    pub workers : lookup "workers" e ≡ lookup "workers" d

  module _ (same : SameJob) where
    KnownEngine-same : KnownEngine d → KnownEngine e
    KnownEngine-same (KnownEngine.left_out p) = KnownEngine.left_out (same.engine ∙ p)
    KnownEngine-same (KnownEngine.named name g p q) = KnownEngine.named name g (same.engine ∙ p) q

    WorkersFit-same : (p : Preset) → WorkersFit p d → WorkersFit p e
    WorkersFit-same p (WorkersFit.left_out a) = WorkersFit.left_out (same.workers ∙ a)
    WorkersFit-same p (WorkersFit.serial a) = WorkersFit.serial (same.workers ∙ a)
    WorkersFit-same p (WorkersFit.streams n a lo hi f) =
        WorkersFit.streams n (same.workers ∙ a) lo hi f

module _ (fl : Floats) where
  open fl use {F}

  IsValid-same :
      (free free' : F) (d e : Fields F)
      → SameJob d e
      → lookup "action" d ≢ some (str "download")
      → IsValid fl free d
      → IsValid fl free' e
  IsValid-same free free' d e same other (IsValid.serve name g a b c k) =
      IsValid.serve name g (same.action ∙ a) (same.engine ∙ b) c k
  IsValid-same free free' d e same other (IsValid.eval name p a b c k w) =
      IsValid.eval name p (same.action ∙ a) (same.preset ∙ b) c (KnownEngine-same d e same k)
        (WorkersFit-same d e same p w)
  IsValid-same free free' d e same other (IsValid.download repo size a b c k x y z) =
      absurd (other a)

  -- A job other than a download that passes validation passes it again, with a key added that
  -- validation does not read and whatever the disk has free by then: the file name that the
  -- dispatcher adds to a job that the server took does not make it fail.
  pub validate_job_again :
      (free free' : F) (d : Fields F) (name : String)
      → lookup "action" d ≢ some (str "download")
      → validate_job fl free (obj d) ≡ ok accepted
      → validate_job fl free' (obj (insert "_path" (str name) d)) ≡ ok accepted
  validate_job_again free free' d name other h =
      (validate_job-iff-IsValid fl free' (insert "_path" (str name) d)).1 (
        IsValid-same free free' d (insert "_path" (str name) d) with_path other
          ((validate_job-iff-IsValid fl free d).0 h))
    where
      with_path : SameJob d (insert "_path" (str name) d)
      with_path = record {
        action = lookup-insert "_path" "action" (str name) d;
        preset = lookup-insert "_path" "preset" (str name) d;
        engine = lookup-insert "_path" "engine" (str name) d;
        workers = lookup-insert "_path" "workers" (str name) d;
      }
