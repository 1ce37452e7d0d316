-- ===== src/Registry/Live.antt =====
-- `_run`, `_dist_version`, `_vllm_build` and `live_engine` of registry.py.
use runboard_lcp.Base.{
  ℕ, zero, ◌-◌, String, ◌<>◌, Bool, true, false, ◌&&◌, Option, none, some, List, [], ◌∷◌, ◌==◌,
  is_empty, strip, words, split_lines, contains, ends_with, after_first, after_last, before_first,
  parse_nat, if◌then◌else◌,
}
use runboard_lcp.Base.Run.{Run, ◌>>=◌, pure}
use runboard_lcp.Base.Try.{ok, raised}
use Prim.Native.String.{len, slice}
use runboard_lcp.Host.{Host, Spawn, completed, timed_out, not_started, page}
use runboard_lcp.Json.{Json, str, arr, obj, cons, lookup}
use runboard_lcp.Registry.Catalogue.{Entry, systemd_unit, docker, catalogue}

-- What `live_engine` returns. A model id that is no text counts as none.
pub record LiveEngine : Type 0 where
  pub target : String
  pub pid : Option ℕ
  pub engine_build : Option String
  pub model_id : Option String
  pub healthy : Bool
  pub unit : Option String
  pub container : Option String

abbrev nothing_serving : LiveEngine
nothing_serving = record {
  target = "none";
  pid = none;
  engine_build = none;
  model_id = none;
  healthy = false;
  unit = none;
  container = none;
}

abbrev stdout_of : Spawn → String
stdout_of (completed rc out err) = strip out
stdout_of timed_out = ""
stdout_of (not_started e) = ""

-- The line of `ss -ltnp` that names the listener on the port, and its process id.
unfoldable pub listener_pid : List String → Option ℕ
listener_pid [] = none
listener_pid (line ∷ lines) =
    let rest = listener_pid lines in
    if contains line ":18300 " && contains line "pid="
    then elim (after_first line "pid=") [ none ↦ none | some t ↦ parse_nat (before_first t ",") ]
    else rest

-- The first exllamav3 extension among the words of /proc/<pid>/maps.
unfoldable pub build_of_maps : List String → Option String
build_of_maps [] = none
build_of_maps (tok ∷ toks) =
    let rest = build_of_maps toks in
    if contains tok "exllamav3_ext" && ends_with tok ".so"
    then if contains tok "cruz-exllamav3"
      then some "CRUZ FORK (523ecd3)"
      else if contains tok "r0b0tlab"
      then some "stock exllamav3 (r0b0tlab)"
      else some tok
    else rest

module _ {F : Type 0} where
  -- `doc["version"]`, `doc["data"][0]["id"]`: `none` where a step raises.
  unfoldable pub text_at : String → Option (Json F) → Option String
  text_at k (some (obj d)) = elim (lookup k d) [ some (str s) ↦ some s | _ ↦ none ]
  text_at k v = none

  first_item : Option (Json F) → Option (Json F)
  first_item (some (arr (cons x xs))) = some x
  first_item v = none

  field_of : String → Option (Json F) → Option (Json F)
  field_of k (some (obj d)) = lookup k d
  field_of k v = none

  unfoldable pub served_id : Option (Json F) → Option String
  unfolding text_at first_item field_of
  served_id doc = text_at "id" (first_item (field_of "data" doc))

module _ {F : Type 0} (H : Host F) where
  open H use {State, subprocess, urlopen, dist_dirs}

  -- registry._run: the stripped output whatever the exit code, and "" where the call raises.
  unfoldable pub run_output : List String → Run State String
  run_output cmd = do end ← subprocess cmd 20; pure (stdout_of end)

  -- The first unit of the catalogue that is active.
  unfoldable pub active_unit : List Entry → Run State (Option Entry)
  active_unit [] = pure none
  active_unit (e ∷ es) = elim e.kind [
    | docker ↦ active_unit es
    | systemd_unit ↦ do
      out ← run_output ("systemctl" ∷ "is-active" ∷ e.unit ∷ [])
      elim (out == "active") [ true ↦ pure (some e) | false ↦ active_unit es ]
  ]

  -- The first container of the catalogue that is running.
  unfoldable pub running_container : List Entry → Run State (Option Entry)
  running_container [] = pure none
  running_container (e ∷ es) = elim e.kind [
    | systemd_unit ↦ running_container es
    | docker ↦ do
      out ← run_output ("docker" ∷ "inspect" ∷ "-f" ∷ "{{.State.Status}}" ∷ e.unit ∷ [])
      elim (out == "running") [ true ↦ pure (some e) | false ↦ running_container es ]
  ]

  -- The `for … else`: containers are asked only where no unit is active.
  unfoldable pub serving : Run State LiveEngine
  serving = do
    unit ← active_unit catalogue
    elim unit [
      | some e ↦ pure (record nothing_serving { target = e.id; unit = some e.unit })
      | none ↦ do
        box ← running_container catalogue
        pure (elim box [
          | some e ↦ record nothing_serving { target = e.id; container = some e.unit }
          | none ↦ nothing_serving
        ])
    ]

  build_of_pid : Option ℕ → Run State (Option String)
  build_of_pid none = pure none
  build_of_pid (some zero) = pure none
  build_of_pid (some pid) = do
    text ← H.maps pid
    pure (elim text [ none ↦ none | some t ↦ build_of_maps (words t) ])

  version_in : List String → Option String
  version_in [] = none
  version_in (name ∷ names) = after_last b'-' (slice name 0 (len name - len ".dist-info"))

  -- registry._dist_version
  unfoldable pub dist_version : String → Run State (Option String)
  unfolding version_in
  dist_version name = do names ← dist_dirs (name <> "-*.dist-info"); pure (version_in names)

  abbrev vllm_label : String → Option String → String
  vllm_label version none = "vLLM " <> version
  vllm_label version (some plugin) =
      if is_empty plugin
      then "vLLM " <> version
      else "vLLM " <> version <> " + vllm_exl3 " <> plugin

  -- registry._vllm_build
  unfoldable pub vllm_build : Run State (Option String)
  vllm_build = do
    answer ← urlopen (page "/version")
    elim answer [
      | raised e ↦ pure none
      | ok doc ↦ elim (text_at "version" doc) [
        | none ↦ pure none
        | some version ↦ do
          plugin ← dist_version "vllm_exl3"
          pure (some (vllm_label version plugin))
      ]
    ]

  -- The probe of /v1/models: whether it answers, and the id that it names.
  with_models : LiveEngine → Run State LiveEngine
  with_models info = do
    answer ← urlopen (page "/v1/models")
    pure (elim answer [
      | raised e ↦ info
      | ok doc ↦ record info { healthy = true; model_id = served_id doc }
    ])

  with_version : LiveEngine → Run State LiveEngine
  with_version info = elim info.engine_build [
    | some b ↦ pure info
    | none ↦
        if info.healthy
        then (do b ← vllm_build; pure (record info { engine_build = b }))
        else pure info
  ]

  with_image : LiveEngine → Run State LiveEngine
  with_image info = elim info.engine_build [
    | some b ↦ pure info
    | none ↦ elim info.container [
      | none ↦ pure info
      | some c ↦ do
        image ← run_output ("docker" ∷ "inspect" ∷ "-f" ∷ "{{.Config.Image}}" ∷ c ∷ [])
        pure (
            if is_empty image
            then info
            else record info { engine_build = some ("container image " <> image) })
    ]
  ]

  unfoldable pub live_engine : Run State LiveEngine
  unfolding build_of_pid with_models with_version with_image
  live_engine = do
    found ← serving
    listeners ← run_output ("ss" ∷ "-ltnp" ∷ [])
    let pid = listener_pid (split_lines listeners)
    build ← build_of_pid pid
    answered ← with_models (record found { pid = pid; engine_build = build })
    versioned ← with_version answered
    with_image versioned
