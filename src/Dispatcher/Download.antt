-- ===== src/Dispatcher/Download.antt =====
-- do_download of dispatcher.py, with download_progress of console_core.py.
pub mod Limit
use runboard_lcp.Base.{
  ℕ, zero, suc, ◌+◌, ◌-◌, ◌*◌, ◌%◌, String, ◌<>◌, not, Option, none, some, List, [], ◌∷◌, map, ltb,
  ◌=ℕ=◌, is_empty, if◌then◌else◌,
}
use runboard_lcp.Base.Act.{◌>>=◌, ◌>>◌, match_option, pure, raise}
use runboard_lcp.Base.Int.{ℤ}
use runboard_lcp.Base.Try.{runtime_error}
use runboard_lcp.Core.Disk.{disk_free_gb, download_allowed}
use runboard_lcp.Core.Floats.{Floats}
use runboard_lcp.Dispatcher.Eval.{log_tail, start_process, some_or_raise, take_chars}
use runboard_lcp.Dispatcher.Session.{Exec, on_host, touch_file, run}
use runboard_lcp.Dispatcher.Status.{set, log, log_all}
use runboard_lcp.Dispatcher.Switch.{is_zero, text_field, match_check, lift}
use runboard_lcp.Host.{Host}
use runboard_lcp.Json.{Json, str, Fields, lookup}

module _ (fl : Floats) where
  open fl use {F}

  module _ (H : Host F) where
    -- The first of the two paths that exists.
    unfoldable pub find_hf : List String → Exec H (Option String)
    find_hf [] = pure none
    find_hf (path ∷ paths) = do
      there ← on_host H (H.exists path)
      if there then pure (some path) else find_hf paths

    abbrev pub hf_paths : List String
    hf_paths = "/root/dlvenv/bin/hf" ∷ "/root/exl3-engine/r0b0tlab-exllamav3/.venv/bin/hf" ∷ []

    -- `job.get("revision") or None`
    abbrev pub revision_arguments : Option (Json F) → List String
    revision_arguments (some (str rev)) = if is_empty rev then [] else "--revision" ∷ rev ∷ []
    revision_arguments v = []

    -- The disk check at execution time.
    unfoldable pub check_disk : Fields F → Exec H (Unit {0})
    check_disk job = do
      free ← on_host H H.disk_usage
      verdict ← lift H (download_allowed fl (disk_free_gb fl free) (lookup "expected_gb" job))
      match_check H verdict (λ why. raise (runtime_error "refused at execution time"))
          (log H "disk check at execution time")

    -- One tick of the loop: progress measured on the disk, and every twentieth a line in the log.
    unfoldable pub report_download : String → ℕ → Exec H (Unit {0})
    report_download repo ticks = do
      gb ← on_host H (H.cached_gb repo)
      on_host H H.disk_usage
      set H (λ doc. record doc { phase = some "download"; downloaded_gb = gb })
      if ticks % 20 =ℕ= 0 then log H "progress" else pure tt

    -- `while proc.poll() is None`: the exit code, or an exception past four hours.
    unfoldable pub wait_download : ℕ → String → ℕ → ℕ → Exec H (Option ℤ)
    wait_download zero repo t0 ticks = pure none
    wait_download (suc fuel) repo t0 ticks = do
      rc ← on_host H H.poll
      match_option rc
          (do
            now ← on_host H H.time
            if ltb (14400 * 1000) (now - t0)
                then (do on_host H H.kill; raise (runtime_error "download exceeded 4 h"))
                else (do
                  on_host H (H.sleep 15)
                  _ ← report_download repo (ticks + 1)
                  wait_download fuel repo t0 (ticks + 1)))
          (λ r. pure (some r))

    unfoldable pub do_download : Fields F → Exec H (String × ℤ)
    unfolding find_hf check_disk
    do_download job = do
      repo ← text_field H "repo" job
      hf ← find_hf hf_paths
      match_option hf (raise (runtime_error "no hf CLI found on this box")) λ hf. (do
        check_disk job
        job_id ← text_field H "job_id" job
        let path = "download-" <> job_id <> ".log"
        set H (λ doc. record doc { phase = some "download" })
        log H "cmd"
        t0 ← on_host H H.time
        touch_file H
        start_process H (hf ∷ "download" ∷ repo ∷ revision_arguments (lookup "revision" job))
        end ← wait_download 14402 repo t0 0
        rc ← some_or_raise H (runtime_error "out of fuel") end
        log H "download finished"
        tail ← log_tail H path 6
        log_all H (map (λ l. "  " <> take_chars 160 l) tail)
        if not (is_zero rc)
            then raise (runtime_error "hf download failed")
            else (do run H ("python3" ∷ "/root/load/registry.py" ∷ []) 180; pure (repo, rc)))
