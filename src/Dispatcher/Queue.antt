-- ===== src/Dispatcher/Queue.antt =====
-- The queue folder of dispatcher.py: oldest_job, and the moves of a job file.
pub mod Folders
use Prim.Native.Nat.{Ordering}
use Prim.Native.String.{compare}
use runboard_lcp.Base.{
  String, Bool, true, false, Option, none, some, List, [], ◌∷◌, ◌==◌, if◌then◌else◌,
}
use runboard_lcp.Dispatcher.Session.{Folder}
use runboard_lcp.Json.{Json}
use text.Mathlib.Text.{starts_with}

-- The order of file names.
abbrev pub name_le : String → String → Bool
name_le a b = elim (compare a b) [ Ordering.gt ↦ false | _ ↦ true ]

unfoldable pub insert_name : String → List String → List String
insert_name a [] = a ∷ []
insert_name a (b ∷ bs) = let rest = insert_name a bs in if name_le a b then a ∷ b ∷ bs else b ∷ rest

-- `sorted(…)`
unfoldable pub sort_names : List String → List String
unfolding insert_name
sort_names [] = []
sort_names (a ∷ as') = insert_name a (sort_names as')

unfoldable pub first_visible : List String → Option String
first_visible [] = none
first_visible (a ∷ as') = if starts_with a "." then first_visible as' else some a

module _ {F : Type 0} where
  abbrev pub names : Folder F → List String
  names [] = []
  names ((n, _) ∷ q) = n ∷ names q

  -- The name of the job to run next.
  unfoldable pub oldest_job : Folder F → Option String
  unfolding sort_names first_visible
  oldest_job q = first_visible (sort_names (names q))

  -- `json.loads(path.read_text())`, `none` where it raises.
  unfoldable pub read_job : String → Folder F → Option (Json F)
  read_job name [] = none
  read_job name ((n, v) ∷ q) = if n == name then v else read_job name q

  -- `path.unlink()`
  unfoldable pub remove_file : String → Folder F → Folder F
  remove_file name [] = []
  remove_file name ((n, v) ∷ q) =
      let rest = remove_file name q in if n == name then rest else (n, v) ∷ rest

  -- `path.write_text(…)`
  unfoldable pub put_file : String → Option (Json F) → Folder F → Folder F
  unfolding remove_file
  put_file name v q = (name, v) ∷ remove_file name q
