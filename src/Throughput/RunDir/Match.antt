-- ===== src/Throughput/RunDir/Match.antt =====
-- Which directory find_run_dir gives.
use runboard_lcp.Base.{
  String, ◌<>◌, ◌≡◌, refl, ◌∙◌, sym, ap, inl, inr, Bool, true, false, ◌&&◌, ◌||◌, Option, none,
  some, List, [], ◌∷◌, arith, eq_iff, Bool-cases, ◌==◌, is_empty,
}
use runboard_lcp.Core.Hub.{is_in}
use runboard_lcp.Dispatcher.Queue.{sort_names, insert_name, name_le}
use runboard_lcp.Throughput.RunDir.{
  is_run_of, runs_of, last_name, last_run, named_run, or_else, find_run_dir,
}

is_in-insert_name :
    (x : String) (xs : List String) (name : String)
    → is_in (insert_name x xs) name ≡ ((x == name) || is_in xs name)
unfolding insert_name
is_in-insert_name x [] name = ground arith
is_in-insert_name x (y ∷ ys) name = ground (arith, name_le x y, is_in-insert_name x ys name)

is_in-sort_names : (xs : List String) (name : String) → is_in (sort_names xs) name ≡ is_in xs name
unfolding sort_names
is_in-sort_names [] name = refl
is_in-sort_names (x ∷ xs) name =
    ground (arith, is_in-insert_name x (sort_names xs) name, is_in-sort_names xs name)

is_in-runs_of :
    (job : String) (xs : List String) (name : String)
    → is_in (runs_of job xs) name ≡ (is_in xs name && is_run_of job name)
unfolding runs_of
is_in-runs_of job [] name = refl
is_in-runs_of job (x ∷ xs) name = elim (Bool-cases (x == name)) [
  | inl e ↦
      let same : x ≡ name = ground (arith, eq_iff x name) in
      ground (arith, ap (is_run_of job) same, e, is_in-runs_of job xs name)
  | inr e ↦ ground (arith, e, is_in-runs_of job xs name)
]

last_name-is_in : (xs : List String) {d : String} → last_name xs ≡ some d → is_in xs d ≡ true
unfolding last_name
last_name-is_in [] h = absurd cc
last_name-is_in (x ∷ []) {d} h = ground (arith, eq_iff x d)
last_name-is_in (x ∷ y ∷ ys) {d} h = ground (arith, last_name-is_in (y ∷ ys) h)

last_run-is_run_of :
    (job : String) (names : List String) {d : String}
    → last_run job (some names) ≡ some d
    → (is_in names d ≡ true) × (is_run_of job d ≡ true)
unfolding last_run
last_run-is_run_of job names {d} h =
    let found =
      sym (is_in-runs_of job names d)
      ∙ sym (is_in-sort_names (runs_of job names) d)
      ∙ last_name-is_in (sort_names (runs_of job names)) h in
    (ground (arith, found), ground (arith, found))

-- The directory that the job's document names: the job's id, a dash and the engine.
unfoldable pub is_named_run : String → Option String → String → Bool
is_named_run job none d = false
is_named_run job (some engine) d = (job <> "-" <> engine) == d

named_run-is_in :
    (job : String) (engine : Option String) (names : List String) {d : String}
    → named_run job engine (some names) ≡ some d
    → (is_in names d ≡ true) × (is_named_run job engine d ≡ true)
unfolding named_run is_named_run
named_run-is_in job none names {d} h = absurd cc
named_run-is_in job (some engine) names {d} h =
    elim (Bool-cases (is_in names (job <> "-" <> engine))) [
      | inl e ↦
          let same : (job <> "-" <> engine) ≡ d = ground (arith, h, e) in
          (rw (← same) e, ground (arith, eq_iff (job <> "-" <> engine) d))
      | inr e ↦ absurd (ground (arith, h, e))
    ]

by_name :
    (job : String) (engine : Option String) (names : List String) (o : Option String) {d : String}
    → named_run job engine (some names) ≡ o
    → or_else o (last_run job (some names)) ≡ some d
    → (is_in names d ≡ true) × ((is_named_run job engine d || is_run_of job d) ≡ true)
by_name job engine names (some k) {d} p h =
    let found = named_run-is_in job engine names (p ∙ h) in (found.0, ground (arith, found.1))
by_name job engine names none {d} p h =
    let found = last_run-is_run_of job names h in (found.0, ground (arith, found.1))

-- The directory that is found for a job is one that is there, and its name is the job's id, a dash and
-- the engine that is named, or the job's id, or begins with the id and a dash.
pub find_run_dir-is_run_of :
    (job : String) (engine : Option String) (names : List String) {d : String}
    → find_run_dir job engine (some names) ≡ some d
    → (is_in names d ≡ true) × ((is_named_run job engine d || is_run_of job d) ≡ true)
unfolding find_run_dir
find_run_dir-is_run_of job engine names {d} h = elim (Bool-cases (is_empty job)) [
  | inl e ↦ absurd (ground (arith, h, e))
  | inr e ↦ by_name job engine names _ refl (rw e at h)
]
