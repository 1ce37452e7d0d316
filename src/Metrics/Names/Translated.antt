-- ===== src/Metrics/Names/Translated.antt =====
-- The expressions of the card in the names of TensorFold.
use runboard_lcp.Base.{
  String, ◌≡◌, refl, Bool, true, false, not, ◌&&◌, Option, none, some, List, [], ◌∷◌, inl, inr,
  contains, Bool-cases, eq_iff, arith, ◌==◌,
}
use runboard_lcp.Base.Try.{Try, ok, raised}
use runboard_lcp.Base.Assoc.{find_key}
use runboard_lcp.Metrics.Names.{
  expr_for, tensorfold, expressions, expressions_of, aliases_of, replace_each,
}
use runboard_lcp.Metrics.Recent.{counter_expr}

-- Whether all keys of a table pass a test.
unfoldable all_keys : (String → Bool) → List (String × String) → Bool
all_keys test [] = true
all_keys test ((k, v) ∷ table) = test k && all_keys test table

find_key-all_keys :
    (test : String → Bool) (table : List (String × String)) (key : String) {v : String}
    → all_keys test table ≡ true
    → find_key key table ≡ some v
    → test key ≡ true
unfolding all_keys find_key
find_key-all_keys test [] key a f = cc
find_key-all_keys test ((k, w) ∷ table) key {v} a f = elim (Bool-cases (k == key)) [
  | inl e ↦ let same : k ≡ key = ground (arith, eq_iff k key) in rw (← same) (ground arith)
  | inr e ↦ find_key-all_keys test table key {v = v} (ground arith) (rw e at f)
]

-- No vLLM name in an expression that is there.
abbrev is_clean : Try String → Bool
is_clean (ok text) = not (contains text "vllm:")
is_clean (raised e) = true

abbrev passes : String → Bool
passes key = is_clean (expr_for key tensorfold)

expressions_pass : all_keys passes expressions ≡ true
unfolding all_keys expressions expr_for
expressions_pass = refl

overrides_pass : all_keys passes (expressions_of tensorfold) ≡ true
unfolding all_keys expressions_of expr_for
overrides_pass = refl

no_expression :
    (key : String)
    → find_key key (expressions_of tensorfold) ≡ none
    → find_key key expressions ≡ none
    → passes key ≡ true
unfolding expr_for
no_expression key p q = rw (p, expr_for) (rw (q, expr_for) refl)

of_not : (b : Bool) → not b ≡ true → b ≡ false
of_not true h = cc
of_not false h = refl

by_table :
    (override text : Option String) (key : String)
    → find_key key (expressions_of tensorfold) ≡ override
    → find_key key expressions ≡ text
    → passes key ≡ true
by_table (some w) text key p q =
    find_key-all_keys passes (expressions_of tensorfold) key overrides_pass p
by_table none (some w) key p q = find_key-all_keys passes expressions key expressions_pass q
by_table none none key p q = no_expression key p q

count_translated : contains (counter_expr tensorfold) "vllm:" ≡ false
unfolding counter_expr aliases_of replace_each
count_translated = refl

-- No expression that the card asks Prometheus for while TensorFold serves has a name of vLLM left in
-- it: neither those of the rates and the lines of the chart, each of which has a key, nor that of the
-- counter that says what was generated in the last hour.
pub expr_for-translated :
    (key : String) {e : String}
    → expr_for key tensorfold ≡ ok e
    → (contains e "vllm:" ≡ false) × (contains (counter_expr tensorfold) "vllm:" ≡ false)
expr_for-translated key {e} h =
    (of_not (contains e "vllm:") (rw h at (by_table _ _ key refl refl)), count_translated)
