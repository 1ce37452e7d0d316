-- ===== src/Dispatcher/Queue/Folders.antt =====
-- The folder of job files under the moves of a tick.
use runboard_lcp.Base.{
  String, ◌≡◌, refl, ◌∙◌, sym, arith, eq_iff, ◌⊎◌, inl, inr, Bool, true, false, ◌||◌, none, some,
  List, [], ◌∷◌, ◌==◌, ◌≤◌, ◌<◌, length, Bool-cases, if◌then◌else◌,
}
use runboard_lcp.Dispatcher.Queue.{
  name_le, insert_name, sort_names, first_visible, names, oldest_job, read_job, remove_file,
}
use runboard_lcp.Dispatcher.Session.{Folder}
use runboard_lcp.Json.{Json}
use text.Mathlib.Text.{starts_with}

unfoldable pub listed : String → List String → Bool
listed m [] = false
listed m (n ∷ ns) = (n == m) || listed m ns

listed-insert_name :
    (m a : String) (ns : List String) → listed m (insert_name a ns) ≡ ((a == m) || listed m ns)
unfolding listed insert_name
listed-insert_name m a [] = refl
listed-insert_name m a (b ∷ bs) =
    ground (arith, listed-insert_name m a bs, Bool-cases (name_le a b))

listed-sort_names : (m : String) (ns : List String) → listed m (sort_names ns) ≡ listed m ns
unfolding listed sort_names
listed-sort_names m [] = refl
listed-sort_names m (a ∷ as') =
    rw (listed-insert_name m a (sort_names as'), listed-sort_names m as') refl

first_visible-listed :
    (m : String) (ns : List String) → first_visible ns ≡ some m → listed m ns ≡ true
unfolding listed first_visible
first_visible-listed m [] h = cc
first_visible-listed m (a ∷ as') h = ground (arith, eq_iff a m, first_visible-listed m as', h)

none_visible :
    (m : String) (ns : List String)
    → first_visible ns ≡ none
    → starts_with m "." ≡ false
    → listed m ns ≡ false
unfolding listed first_visible
none_visible m [] h visible = refl
none_visible m (a ∷ as') h visible =
    by_first (Bool-cases (starts_with a ".")) (Bool-cases (a == m)) (none_visible m as')
  where
    by_first :
        (starts_with a "." ≡ true) ⊎ (starts_with a "." ≡ false)
        → (a == m ≡ true) ⊎ (a == m ≡ false)
        → (first_visible as' ≡ none → starts_with m "." ≡ false → listed m as' ≡ false)
        → (a == m) || listed m as' ≡ false
    by_first (inr shown) same rest =
        let none_left : some a ≡ none = rw shown at h in absurd (cc none_left)
    by_first (inl hidden) (inl same) rest = absurd (cc (hidden, visible, (eq_iff a m).0 same))
    by_first (inl hidden) (inr other) rest = rw other (rest (rw hidden at h) visible)

module _ {F : Type 0} where
  pub oldest_job-listed :
      (m : String) (q : Folder F) → oldest_job q ≡ some m → listed m (names q) ≡ true
  unfolding oldest_job
  oldest_job-listed m q h =
      sym (listed-sort_names m (names q)) ∙ first_visible-listed m (sort_names (names q)) h

  pub oldest_job-none :
      (m : String) (q : Folder F)
      → oldest_job q ≡ none
      → starts_with m "." ≡ false
      → listed m (names q) ≡ false
  unfolding oldest_job
  oldest_job-none m q h visible =
      sym (listed-sort_names m (names q)) ∙ none_visible m (sort_names (names q)) h visible

  pub read_job-listed :
      (m : String) (v : Json F) (q : Folder F) → read_job m q ≡ some v → listed m (names q) ≡ true
  unfolding read_job listed
  read_job-listed m v [] h = cc
  read_job-listed m v ((n, x) ∷ q) h = ground (arith, h, read_job-listed m v q)

  pub listed-remove_file :
      (m n : String) (q : Folder F)
      → listed m (names (remove_file n q)) ≡ (if n == m then false else listed m (names q))
  unfolding listed remove_file
  listed-remove_file m n [] = ground arith
  listed-remove_file m n ((k, x) ∷ q) =
      ground (arith, eq_iff k n, eq_iff k m, eq_iff n m, listed-remove_file m n q)

  pub read_job-remove_file :
      (m n : String) (q : Folder F) → (n == m) ≡ false → read_job m (remove_file n q) ≡ read_job m q
  unfolding read_job remove_file
  read_job-remove_file m n [] h = refl
  read_job-remove_file m n ((k, x) ∷ q) h =
      ground (arith, h, eq_iff k n, eq_iff k m, eq_iff n m, read_job-remove_file m n q h)

  shorter : (n : String) (q : Folder F) → length (names (remove_file n q)) ≤ length (names q)
  unfolding remove_file
  shorter n [] = omega arith
  shorter n ((k, x) ∷ q) = ground (arith, shorter n q)

  pub remove_file-shorter :
      (n : String) (q : Folder F)
      → listed n (names q) ≡ true
      → length (names (remove_file n q)) < length (names q)
  unfolding remove_file listed
  remove_file-shorter n [] h = cc
  remove_file-shorter n ((k, x) ∷ q) h = ground (arith, h, shorter n q, remove_file-shorter n q)
