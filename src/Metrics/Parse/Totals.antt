-- ===== src/Metrics/Parse/Totals.antt =====
-- What a sum of parse_engine is the sum of.
use runboard_lcp.Base.{
  String, ◌≡◌, refl, ◌∙◌, ap, Option, none, some, List, [], ◌∷◌, ◌++◌, inl, inr, arith, eq_iff,
  ◌==◌, is_empty, strip, split_lines, Bool-cases, if◌then◌else◌,
}
use runboard_lcp.Base.Assoc.{find_key}
use runboard_lcp.Metrics.Parse.{
  label_key, head_of, value_of, has_labels, metric_of, model_of, or_model, is_skipped, Sums, plus,
  add_to, Parsed, count_sample, on_number, parse_line, parse_lines, parse_engine,
}
use runboard_lcp.Metrics.Reals.{Reals, Number, finite, no_number, not_finite}

module _ (rl : Reals) where
  open rl use {R}

  -- What one series adds: its value under its metric, and under its labels where it has some.
  unfoldable pub shares : String → R → Sums rl
  shares head x =
      if has_labels head
      then (metric_of head, x) ∷ (label_key head, x) ∷ []
      else (metric_of head, x) ∷ []

  unfoldable pub number_shares : String → Number R → Sums rl
  unfolding shares
  number_shares head (finite x) = if is_empty (metric_of head) then [] else shares head x
  number_shares head n = []

  unfoldable pub line_shares : String → Sums rl
  unfolding number_shares
  line_shares raw =
      let line = strip raw in
      if is_skipped line then [] else number_shares (head_of line) (rl.parse (value_of line))

  unfoldable pub all_shares : List String → Sums rl
  unfolding line_shares
  all_shares [] = []
  all_shares (l ∷ ls) = line_shares l ++ all_shares ls

  -- The shares of a key added up in order, to what is there; `none` where it has none.
  unfoldable pub total : String → Sums rl → Option R → Option R
  total key [] sum = sum
  total key ((k, x) ∷ shares) sum =
      total key shares (if k == key then some (plus rl sum x) else sum)

  find_key-add_to :
      (key k : String) (x : R) (sums : Sums rl)
      → find_key key (add_to rl k x sums)
        ≡ (if k == key then some (plus rl (find_key k sums) x) else find_key key sums)
  unfolding find_key add_to
  find_key-add_to key k x [] = ground (arith, eq_iff k key)
  find_key-add_to key k x ((j, y) ∷ sums) =
      ground (arith, eq_iff k key, eq_iff j key, eq_iff j k, find_key-add_to key k x sums)

  add_to-total :
      (key k : String) (x : R) (sums : Sums rl)
      → find_key key (add_to rl k x sums) ≡ total key ((k, x) ∷ []) (find_key key sums)
  unfolding total
  add_to-total key k x sums = elim (Bool-cases (k == key)) [
    | inl e ↦
        let same : k ≡ key = ground (arith, eq_iff k key) in
        rw (find_key-add_to key k x sums, e) (rw same refl)
    | inr e ↦ rw (find_key-add_to key k x sums, e) refl
  ]

  total-append :
      (key : String) (xs ys : Sums rl) (sum : Option R)
      → total key (xs ++ ys) sum ≡ total key ys (total key xs sum)
  unfolding total
  total-append key [] ys sum = refl
  total-append key ((k, x) ∷ xs) ys sum = total-append key xs ys _

  add_to_twice :
      (key m n : String) (x : R) (sums : Sums rl)
      → find_key key (add_to rl n x (add_to rl m x sums))
        ≡ total key ((m, x) ∷ (n, x) ∷ []) (find_key key sums)
  unfolding total
  add_to_twice key m n x sums =
      add_to-total key n x (add_to rl m x sums)
      ∙ ap (total key ((n, x) ∷ [])) (add_to-total key m x sums)

  count_sample-total :
      (key head : String) (x : R) (p : Parsed rl)
      → find_key key (count_sample rl head x p).sums
        ≡ total key (shares head x) (find_key key p.sums)
  unfolding count_sample shares
  count_sample-total key head x p = elim (Bool-cases (has_labels head)) [
    | inl e ↦ rw e (add_to_twice key _ (label_key head) x p.sums)
    | inr e ↦ rw e (add_to-total key _ x p.sums)
  ]

  on_number-total :
      (key head : String) (n : Number R) (p : Parsed rl)
      → find_key key (on_number rl head n p).sums
        ≡ total key (number_shares head n) (find_key key p.sums)
  unfolding on_number number_shares total
  on_number-total key head (finite x) p = elim (Bool-cases (is_empty (metric_of head))) [
    | inl e ↦ rw e refl
    | inr e ↦ rw e (count_sample-total key head x p)
  ]
  on_number-total key head no_number p = refl
  on_number-total key head not_finite p = refl

  parse_line-total :
      (key raw : String) (p : Parsed rl)
      → find_key key (parse_line rl raw p).sums ≡ total key (line_shares raw) (find_key key p.sums)
  unfolding parse_line line_shares total
  parse_line-total key raw p = elim (Bool-cases (is_skipped (strip raw))) [
    | inl e ↦ rw e refl
    | inr e ↦ rw e (
        on_number-total key (head_of (strip raw)) (rl.parse (value_of (strip raw)))
          (record p { model = or_model p.model (model_of (head_of (strip raw))) }))
  ]

  parse_lines-total :
      (key : String) (ls : List String) (p : Parsed rl)
      → find_key key (parse_lines rl ls p).sums ≡ total key (all_shares ls) (find_key key p.sums)
  unfolding parse_lines all_shares total
  parse_lines-total key [] p = refl
  parse_lines-total key (l ∷ ls) p =
      rw
        (
          total-append key (line_shares l) (all_shares ls) (find_key key p.sums),
          ← parse_line-total key l p,
        )
        (parse_lines-total key ls (parse_line rl l p))

  -- Each sum is the sum of the series that have its name, in order: the ones of the metric, or for a
  -- name with labels the ones with these labels up to blanks; a name that no series has is missing,
  -- and is not 0. Comments, values that are no finite number and series without a name add nothing.
  pub parse_engine-total :
      (text key : String)
      → find_key key (parse_engine rl text).sums ≡ total key (all_shares (split_lines text)) none
  unfolding parse_engine find_key
  parse_engine-total text key =
      parse_lines-total key (split_lines text) (record { sums = []; model = none; seen = 0 })
