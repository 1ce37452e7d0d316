-- ===== src/Core/Disk.antt =====
-- disk_free_gb and download_allowed of console_core.py.
use runboard_lcp.Base.{ℕ, Option, none, some, if◌then◌else◌}
use runboard_lcp.Base.Int.{pos}
use runboard_lcp.Base.Try.{Try, ok, raised, type_error, ◌>>=◌}
use runboard_lcp.Core.Config.{disk_floor_gb, max_download_gb}
use runboard_lcp.Core.Floats.{Floats}
use runboard_lcp.Json.{Json, null, bool, int, float, str, arr, obj}

-- Why a job is not taken. Each constructor stands for the text that the source builds.
pub data Refusal : Type 0 where
  not_an_object bad_action serve_needs_engine unknown_preset unknown_engine : Refusal
  bad_workers workers_need_frozen bad_repo bad_repo_characters : Refusal
  no_size over_cap below_floor : Refusal

-- The pair of a Boolean and its reason.
pub data Check : Type 0 where
  accepted : Check
  refused : Refusal → Check

module _ (fl : Floats) where
  open fl use {F, lit, of_int, add, gt, giga}

  -- `shutil.disk_usage(path).free`, or `none` where it raises.
  unfoldable pub disk_free_gb : Option ℕ → F
  disk_free_gb none = lit 0
  disk_free_gb (some free) = giga free

  -- A size as Python's comparisons take it: an absent one is `None`, a Boolean counts as a number,
  -- and a text or a container cannot be compared with a number.
  unfoldable pub size_of : Option (Json F) → Try (Option F)
  size_of none = ok none
  size_of (some null) = ok none
  size_of (some (bool b)) = ok (some (of_int (if b then pos 1 else pos 0)))
  size_of (some (int i)) = ok (some (of_int i))
  size_of (some (float x)) = ok (some x)
  size_of (some (str s)) = raised type_error
  size_of (some (arr xs)) = raised type_error
  size_of (some (obj d)) = raised type_error

  -- The tests on a size that is known.
  unfoldable pub fits : F → F → Check
  fits free size =
      if gt size (lit max_download_gb)
      then refused over_cap
      else if gt (add size (lit disk_floor_gb)) free
      then refused below_floor
      else accepted

  unfoldable pub allow_size : F → Option F → Check
  allow_size free none = refused no_size
  allow_size free (some size) = fits free size

  unfoldable pub download_allowed : F → Option (Json F) → Try Check
  download_allowed free size_gb = do size ← size_of size_gb; ok (allow_size free size)
