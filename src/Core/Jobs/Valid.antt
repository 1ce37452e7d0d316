-- ===== src/Core/Jobs/Valid.antt =====
-- Which jobs `validate_job` takes, stated without its tests.
use Prim.Native.Nat.{◌≤◌}
use runboard_lcp.Base.{
  ◌↔◌, ℕ, zero, suc, String, ◌≡◌, refl, ◌≢◌, inl, inr, Bool, true, false, not, ◌||◌, Option, none,
  some, List, arith, ◌==◌, has_char, has_any, eq_iff, Bool-cases, Option-cases, if◌then◌else◌,
}
use runboard_lcp.Base.Int.{pos}
use runboard_lcp.Base.Try.{Try, ok, >>=-eq-ok}
use runboard_lcp.Base.Assoc.{find_key, has_key}
use runboard_lcp.Core.Config.{
  Preset, Engine, presets, engines, default_workers, max_workers, disk_floor_gb, max_download_gb,
}
use runboard_lcp.Core.Disk.{
  Check, accepted, refused, serve_needs_engine, unknown_engine, unknown_preset, size_of, fits,
  allow_size, download_allowed,
}
use runboard_lcp.Core.Floats.{Floats}
use runboard_lcp.Core.Jobs.{
  in_dict, is_text, get_or, or_else, workers_of, runner_carries, check_workers, check_serve,
  preset_named, check_engine, check_with_preset, check_eval, check_repo, check_repo_value,
  check_download, bad_characters, validate_job,
}
use runboard_lcp.Json.{Json, int, str, obj, Fields, lookup}

-- The engine is left out, or it is one of ENGINES.
pub data KnownEngine {F : Type 0} (d : Fields F) : Type 0 where
  left_out : lookup "engine" d ≡ none → KnownEngine d
  named :
      (name : String) (e : Engine)
      → lookup "engine" d ≡ some (str name)
      → find_key name engines ≡ some e
      → KnownEngine d

-- The streams are left out, or an integer from 1 to MAX_WORKERS that the runner can carry.
pub data WorkersFit {F : Type 0} (p : Preset) (d : Fields F) : Type 0 where
  left_out : lookup "workers" d ≡ none → WorkersFit p d
  serial : lookup "workers" d ≡ some (int (pos 1)) → WorkersFit p d
  streams :
      (n : ℕ)
      → lookup "workers" d ≡ some (int (pos n))
      → 1 ≤ n
      → n ≤ max_workers
      → p.runner ≡ "frozen"
      → WorkersFit p d

module _ (fl : Floats) where
  open fl use {F, lit, add, gt}

  pub data IsValid (free : F) (d : Fields F) : Type 0 where
    serve :
        (name : String) (e : Engine)
        → lookup "action" d ≡ some (str "serve")
        → lookup "engine" d ≡ some (str name)
        → find_key name engines ≡ some e
        → name ≢ "current"
        → IsValid free d
    eval :
        (name : String) (p : Preset)
        → lookup "action" d ≡ some (str "eval")
        → lookup "preset" d ≡ some (str name)
        → find_key name presets ≡ some p
        → KnownEngine d
        → WorkersFit p d
        → IsValid free d
    download :
        (repo : String) (size : F)
        → lookup "action" d ≡ some (str "download")
        → lookup "repo" d ≡ some (str repo)
        → has_char b'/' repo ≡ true
        → has_any bad_characters repo ≡ false
        → size_of fl (lookup "expected_gb" d) ≡ ok (some size)
        → gt size (lit max_download_gb) ≡ false
        → gt (add size (lit disk_floor_gb)) free ≡ false
        → IsValid free d

text_of_is_text :
    {F : Type 0} (v : Option (Json F)) (t : String) → is_text v t ≡ true → v ≡ some (str t)
unfolding is_text
text_of_is_text (some (str s)) t h = ground (arith, eq_iff s t)
text_of_is_text v t h = cc

abbrev Named {ℓ} : {F : Type 0} {V : Type ℓ} → Option (Json F) → List (String × V) → Type ℓ
Named {V} v d = (name : String) × (e : V) × (v ≡ some (str name)) × (find_key name d ≡ some e)

Named-of_in_dict {ℓ} :
    {F : Type 0} {V : Type ℓ} (v : Option (Json F)) (d : List (String × V))
    → in_dict v d ≡ ok true
    → Named v d
unfolding in_dict has_key
Named-of_in_dict none d h = cc
Named-of_in_dict (some (str k)) d h = elim (Option-cases (find_key k d)) [
  | inl e ↦ absurd (ground arith)
  | inr (e, q) ↦ (k, e, refl, q)
]
Named-of_in_dict (some v) d h = cc

in_dict_of_named {ℓ} :
    {F : Type 0} {V : Type ℓ} (v : Option (Json F)) (d : List (String × V)) {name : String} {e : V}
    → v ≡ some (str name)
    → find_key name d ≡ some e
    → in_dict v d ≡ ok true
unfolding in_dict has_key
in_dict_of_named v d p q = rw p (ground arith)

is_text_of_text :
    {F : Type 0} (v : Option (Json F)) {s : String} (t : String)
    → v ≡ some (str s)
    → is_text v t ≡ (s == t)
unfolding is_text
is_text_of_text v t p = rw p refl

module _ {F : Type 0} (d : Fields F) where
  abbrev serve_check : Bool → Try Check
  serve_check known = ok (
      if not known || is_text (lookup "engine" d) "current"
      then refused serve_needs_engine
      else accepted)

  serve_check_sound :
      (known : Bool)
      → in_dict (lookup "engine" d) engines ≡ ok known
      → serve_check known ≡ ok accepted
      → (name : String) × (e : Engine) × (lookup "engine" d ≡ some (str name))
        × (find_key name engines ≡ some e)
        × (name ≢ "current")
  serve_check_sound false p q = cc
  serve_check_sound true p q =
      let (name, e, a, b) = Named-of_in_dict _ _ p in
      (
        name,
        e,
        a,
        b,
        λ c. absurd (
            ground (arith, is_text_of_text (lookup "engine" d) "current" a, eq_iff name "current")),
      )

  check_serve_sound :
      check_serve d ≡ ok accepted
      → (name : String) × (e : Engine) × (lookup "engine" d ≡ some (str name))
        × (find_key name engines ≡ some e)
        × (name ≢ "current")
  unfolding check_serve
  check_serve_sound h =
      let (known, p, q) = >>=-eq-ok (in_dict (lookup "engine" d) engines) serve_check h in
      serve_check_sound known p q

  check_serve_complete :
      (name : String) (e : Engine)
      → lookup "engine" d ≡ some (str name)
      → find_key name engines ≡ some e
      → name ≢ "current"
      → check_serve d ≡ ok accepted
  unfolding check_serve
  check_serve_complete name e a b c =
      rw (in_dict_of_named _ _ a b)
        (ground (arith, is_text_of_text (lookup "engine" d) "current" a, eq_iff name "current"))

  workers_given :
      (p : Preset) (v : Json F)
      → lookup "workers" d ≡ some v
      → runner_carries p (workers_of v) ≡ accepted
      → WorkersFit p d
  unfolding workers_of runner_carries
  workers_given p (int (pos zero)) e h = absurd (ground arith)
  workers_given p (int (pos (suc zero))) e h = WorkersFit.serial e
  workers_given p (int (pos (suc (suc n)))) e h =
      WorkersFit.streams (suc (suc n)) e (omega arith) (ground arith)
        (ground (arith, eq_iff p.runner "frozen"))
  workers_given p v e h = cc

  check_workers_sound : (p : Preset) → check_workers p d ≡ accepted → WorkersFit p d
  unfolding check_workers
  check_workers_sound p h = elim (Option-cases (lookup "workers" d)) [
    | inl e ↦ WorkersFit.left_out e
    | inr (v, e) ↦ workers_given p v e (rw (e, or_else) at h)
  ]

  check_workers_complete : (p : Preset) → WorkersFit p d → check_workers p d ≡ accepted
  unfolding check_workers workers_of runner_carries default_workers find_key
  check_workers_complete p (left_out e) =
      rw (e, or_else)
        (ground (arith, eq_iff "frozen" p.runner, eq_iff p.runner "frozen", eq_iff "lite" p.runner))
  check_workers_complete p (serial e) = rw (e, or_else) refl
  check_workers_complete p (streams n e lo hi f) =
      rw (e, or_else) (ground (arith, eq_iff p.runner "frozen"))

  known_engine :
      in_dict (some (get_or "engine" (str "current") d)) engines ≡ ok true → KnownEngine d
  known_engine h = elim (Option-cases (lookup "engine" d)) [
    | inl e ↦ KnownEngine.left_out e
    | inr (v, e) ↦
        let (name, g, a, b) = Named-of_in_dict (some v) engines (rw (e, or_else) at h) in
        KnownEngine.named name g (rw e a) b
  ]

  in_dict_of_known :
      KnownEngine d → in_dict (some (get_or "engine" (str "current") d)) engines ≡ ok true
  unfolding in_dict has_key find_key engines
  in_dict_of_known (left_out e) = rw (e, or_else) refl
  in_dict_of_known (named name g a b) =
      rw (a, or_else) (in_dict_of_named {F = F} (some (str name)) engines refl b)

  check_engine_sound :
      (name : String) (p : Preset)
      → lookup "preset" d ≡ some (str name)
      → find_key name presets ≡ some p
      → check_engine d ≡ ok accepted
      → KnownEngine d × WorkersFit p d
  unfolding check_engine check_with_preset
  check_engine_sound name p a b h =
      let (known, k, q) =
        >>=-eq-ok (in_dict (some (get_or "engine" (str "current") d)) engines) _ h in
      with_engine known k q
    where
      with_engine :
          (known : Bool)
          → in_dict (some (get_or "engine" (str "current") d)) engines ≡ ok known
          → (if not known
              then ok (refused unknown_engine)
              else check_with_preset d (preset_named (lookup "preset" d)))
            ≡ ok accepted
          → KnownEngine d × WorkersFit p d
      with_engine false k q = absurd (ground arith)
      with_engine true k q = (known_engine k, check_workers_sound p (ground (arith, a, b)))

  abbrev EvalParts : Type 0
  EvalParts =
      (name : String) × (p : Preset) × (lookup "preset" d ≡ some (str name))
      × (find_key name presets ≡ some p)
      × KnownEngine d
      × WorkersFit p d

  check_eval_sound : check_eval d ≡ ok accepted → EvalParts
  unfolding check_eval
  check_eval_sound h =
      let (known, p, q) = >>=-eq-ok (in_dict (lookup "preset" d) presets) _ h in
      with_preset known p q
    where
      with_preset :
          (known : Bool)
          → in_dict (lookup "preset" d) presets ≡ ok known
          → (if not known then ok (refused unknown_preset) else check_engine d) ≡ ok accepted
          → EvalParts
      with_preset false p q = absurd (ground arith)
      with_preset true p q =
          let (name, g, a, b) = Named-of_in_dict _ _ p in
          let (k, w) = check_engine_sound name g a b q in (name, g, a, b, k, w)

  check_eval_complete :
      (name : String) (p : Preset)
      → lookup "preset" d ≡ some (str name)
      → find_key name presets ≡ some p
      → KnownEngine d
      → WorkersFit p d
      → check_eval d ≡ ok accepted
  unfolding check_eval check_engine check_with_preset
  check_eval_complete name p a b k w =
      rw (in_dict_of_named _ _ a b, in_dict_of_known k)
        (rw (a, preset_named) (rw b (rw (check_workers_complete p w))))

module _ (fl : Floats) where
  open fl use {F, lit, add, gt}

  abbrev Sized : F → Fields F → Type 0
  Sized free d =
      (size : F) × (size_of fl (lookup "expected_gb" d) ≡ ok (some size))
      × (gt size (lit max_download_gb) ≡ false)
      × (gt (add size (lit disk_floor_gb)) free ≡ false)

  download_allowed_sound :
      (free : F) (d : Fields F)
      → download_allowed fl free (lookup "expected_gb" d) ≡ ok accepted
      → Sized free d
  unfolding download_allowed allow_size fits
  download_allowed_sound free d h =
      let (s, p, q) = >>=-eq-ok (size_of fl (lookup "expected_gb" d)) _ h in with_size s p q
    where
      with_size :
          (s : Option F)
          → size_of fl (lookup "expected_gb" d) ≡ ok s
          → ◌≡◌ {A = Try Check} (ok (allow_size fl free s)) (ok accepted)
          → Sized free d
      with_size none p q = absurd (ground arith)
      with_size (some s) p q = (s, p, ground arith, ground arith)

  download_allowed_complete :
      (free : F) (v : Option (Json F)) (size : F)
      → size_of fl v ≡ ok (some size)
      → gt size (lit max_download_gb) ≡ false
      → gt (add size (lit disk_floor_gb)) free ≡ false
      → download_allowed fl free v ≡ ok accepted
  unfolding download_allowed allow_size fits
  download_allowed_complete free v size a b c = rw a (ground arith)

  abbrev DownloadParts : F → Fields F → Type 0
  DownloadParts free d =
      (repo : String) × (lookup "repo" d ≡ some (str repo))
      × (has_char b'/' repo ≡ true)
      × (has_any bad_characters repo ≡ false)
      × Sized free d

  repo_value_sound :
      (free : F) (d : Fields F) (v : Option (Json F))
      → lookup "repo" d ≡ v
      → check_repo_value fl free d v ≡ ok accepted
      → DownloadParts free d
  unfolding check_repo_value check_repo
  repo_value_sound free d (some (str repo)) p h =
      (repo, p, ground arith, ground arith, download_allowed_sound free d (ground arith))
  repo_value_sound free d v p h = absurd (ground arith)

  check_download_complete :
      (free : F) (d : Fields F) (repo : String)
      → lookup "repo" d ≡ some (str repo)
      → has_char b'/' repo ≡ true
      → has_any bad_characters repo ≡ false
      → download_allowed fl free (lookup "expected_gb" d) ≡ ok accepted
      → check_download fl free d ≡ ok accepted
  unfolding check_download check_repo_value check_repo
  check_download_complete free d repo a b c e = rw (a, check_repo_value) (ground arith)

  abbrev action_is : Fields F → String → Bool
  action_is d t = is_text (lookup "action" d) t

  validate_sound :
      (free : F) (d : Fields F) → validate_job fl free (obj d) ≡ ok accepted → IsValid fl free d
  unfolding validate_job check_download
  validate_sound free d h = elim (Bool-cases (action_is d "serve")) [
    | inl s ↦
        let (name, e, a, b, c) = check_serve_sound d (rw s at h) in
        IsValid.serve name e (text_of_is_text _ _ s) a b c
    | inr ns ↦ elim (Bool-cases (action_is d "eval")) [
      | inl s ↦
          let (name, p, a, b, k, w) = check_eval_sound d (rw (ns, s) at h) in
          IsValid.eval name p (text_of_is_text _ _ s) a b k w
      | inr ne ↦ elim (Bool-cases (action_is d "download")) [
        | inl s ↦
            let (repo, a, b, c, (size, x, y, z)) =
              repo_value_sound free d (lookup "repo" d) refl (rw (ns, ne, s) at h) in
            IsValid.download repo size (text_of_is_text _ _ s) a b c x y z
        | inr nd ↦ absurd (ground (arith, ns, ne, nd))
      ]
    ]
  ]

  validate_complete :
      (free : F) (d : Fields F) → IsValid fl free d → validate_job fl free (obj d) ≡ ok accepted
  unfolding validate_job
  validate_complete free d (serve name e x a b c) =
      rw (is_text_of_text _ "serve" x) (check_serve_complete d name e a b c)
  validate_complete free d (eval name p x a b k w) =
      rw (is_text_of_text _ "serve" x, is_text_of_text _ "eval" x)
        (check_eval_complete d name p a b k w)
  validate_complete free d (download repo size x a b c y z w) =
      rw (is_text_of_text _ "serve" x, is_text_of_text _ "eval" x, is_text_of_text _ "download" x)
        (check_download_complete free d repo a b c (download_allowed_complete free _ size y z w))

  -- A job passes validation exactly when it is one of three: a switch to a known engine other than
  -- "current"; an eval of a known preset on a known engine (or none named), whose streams are left
  -- out, 1, or an integer up to 4 on a frozen preset; a download of an owner/name without shell
  -- characters, of a known size under the cap that leaves the floor free.
  pub validate_job-iff-IsValid :
      (free : F) (d : Fields F) → (validate_job fl free (obj d) ≡ ok accepted) ↔ IsValid fl free d
  validate_job-iff-IsValid free d = (validate_sound free d, validate_complete free d)
