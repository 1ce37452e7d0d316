-- ===== src/Core/Jobs.antt =====
-- validate_job and job_public_view of console_core.py.
pub mod PublicView
pub mod Valid
pub mod Again
use runboard_lcp.Base.{
  ℕ, String, Bool, true, false, not, ◌&&◌, ◌||◌, Option, none, some, List, [], ◌∷◌, ltb, ◌==◌,
  has_char, has_any, if◌then◌else◌,
}
use runboard_lcp.Base.Int.{ℤ, pos, negsuc, between}
use runboard_lcp.Base.Try.{Try, ok, raised, type_error, key_error, ◌>>=◌}
use runboard_lcp.Base.Assoc.{find_key, has_key}
use runboard_lcp.Core.Config.{Preset, presets, engines, max_workers, default_workers}
use runboard_lcp.Core.Disk.{
  Check, accepted, refused, not_an_object, bad_action, serve_needs_engine, unknown_preset,
  unknown_engine, bad_workers, workers_need_frozen, bad_repo, bad_repo_characters, download_allowed,
}
use runboard_lcp.Core.Floats.{Floats}
use runboard_lcp.Json.{Json, null, bool, int, float, str, arr, obj, Fields, lookup, without}

-- `value in d` for a dict with text keys: a list or a dict is not hashable.
unfoldable pub in_dict {ℓ} :
    {F : Type 0} {V : Type ℓ} → Option (Json F) → List (String × V) → Try Bool
in_dict none d = ok false
in_dict (some (str k)) d = ok (has_key k d)
in_dict (some (arr xs)) d = raised type_error
in_dict (some (obj fs)) d = raised type_error
in_dict (some _) d = ok false

-- `value == text`
unfoldable pub is_text : {F : Type 0} → Option (Json F) → String → Bool
is_text (some (str s)) t = s == t
is_text v t = false

-- `d.get(key, default)`
abbrev pub or_else : {A : Type 0} → Option A → A → A
or_else none v = v
or_else (some w) v = w

abbrev pub get_or : {F : Type 0} → String → Json F → Fields F → Json F
get_or k v d = or_else (lookup k d) v

abbrev pub default_workers_of : String → ℕ
default_workers_of runner = or_else (find_key runner default_workers) 1

-- The number of streams asked for, if it is an integer from 1 to MAX_WORKERS and no Boolean.
unfoldable pub workers_of : {F : Type 0} → Json F → Option ℕ
workers_of (int (pos n)) = if between 1 max_workers (pos n) then some n else none
workers_of v = none

-- The two refusals on `workers`.
unfoldable pub runner_carries : Preset → Option ℕ → Check
runner_carries p none = refused bad_workers
runner_carries p (some w) =
    if ltb 1 w && not (p.runner == "frozen") then refused workers_need_frozen else accepted

unfoldable pub check_workers : {F : Type 0} → Preset → Fields F → Check
check_workers p d =
    runner_carries p (workers_of (get_or "workers" (int (pos (default_workers_of p.runner))) d))

unfoldable pub check_serve : {F : Type 0} → Fields F → Try Check
check_serve d = do
  known ← in_dict (lookup "engine" d) engines
  ok (
      if not known || is_text (lookup "engine" d) "current"
      then refused serve_needs_engine
      else accepted)

-- `PRESETS[name]` for a name that was found to be there.
abbrev pub preset_named : {F : Type 0} → Option (Json F) → Option Preset
preset_named (some (str name)) = find_key name presets
preset_named v = none

unfoldable pub check_with_preset : {F : Type 0} → Fields F → Option Preset → Try Check
check_with_preset d none = raised (key_error "preset")
check_with_preset d (some p) = ok (check_workers p d)

unfoldable pub check_engine : {F : Type 0} → Fields F → Try Check
check_engine d = do
  known ← in_dict (some (get_or "engine" (str "current") d)) engines
  if not known
      then ok (refused unknown_engine)
      else check_with_preset d (preset_named (lookup "preset" d))

unfoldable pub check_eval : {F : Type 0} → Fields F → Try Check
check_eval d = do
  known ← in_dict (lookup "preset" d) presets
  if not known then ok (refused unknown_preset) else check_engine d

-- The characters ` \t\n;|&$` and the backquote.
abbrev pub bad_characters : List ℕ
bad_characters = 32 ∷ 9 ∷ 10 ∷ b';' ∷ b'|' ∷ b'&' ∷ b'$' ∷ 96 ∷ []

module _ (fl : Floats) where
  open fl use {F}

  unfoldable pub check_repo : F → String → Fields F → Try Check
  check_repo free repo d =
      if not (has_char b'/' repo)
      then ok (refused bad_repo)
      else if has_any bad_characters repo
      then ok (refused bad_repo_characters)
      else download_allowed fl free (lookup "expected_gb" d)

  unfoldable pub check_repo_value : F → Fields F → Option (Json F) → Try Check
  check_repo_value free d (some (str repo)) = check_repo free repo d
  check_repo_value free d v = ok (refused bad_repo)

  unfoldable pub check_download : F → Fields F → Try Check
  check_download free d = check_repo_value free d (lookup "repo" d)

  -- `free` is what `disk_free_gb()` measures.
  unfoldable pub validate_job : F → Json F → Try Check
  validate_job free (obj d) =
      if is_text (lookup "action" d) "serve"
      then check_serve d
      else if is_text (lookup "action" d) "eval"
      then check_eval d
      else if is_text (lookup "action" d) "download"
      then check_download free d
      else ok (refused bad_action)
  validate_job free null = ok (refused not_an_object)
  validate_job free job = ok (refused not_an_object)

-- What the page may see back.
unfoldable pub job_public_view : {F : Type 0} → Fields F → Fields F
unfolding without
job_public_view = without "token"
