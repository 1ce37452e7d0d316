-- ===== src/Soak/Prompts/Found.antt =====
-- The requests of a worker of load_soak.py: no pool is empty, and no index out of range.
use runboard_lcp.Base.{
  ℕ, zero, suc, ◌%◌, ◌<◌, ◌≡◌, refl, ap, String, some, List, [], ◌∷◌, ◌++◌, map, length, get_elem?,
  arith,
}
use runboard_lcp.Base.Try.{ok, ◌>>=◌, >>=-eq-ok}
use runboard_lcp.Json.{Json, null, bool, int, float, str, arr, obj}
use runboard_lcp.Metrics.Reals.{Reals}
use runboard_lcp.Soak.Prompts.{
  Groups, Pool, LoadRequest, Shapes, build_shapes, built, found, from_prompts, next_request,
  or_blank, pool_of, prompts_of, request, shape_at, texts, json_only,
}
use runboard_lcp.Soak.State.{Shape, chat_short, code_gen, doc_summary, tool_call, deep_reason}
use native.Mathlib.Nat.{mod-lt}

get_elem?-in_range {ℓ} :
    {A : Type ℓ} (xs : List A) (i : ℕ) → i < length xs → (x : A) × (get_elem? xs i ≡ some x)
get_elem?-in_range [] i h = absurd (omega (arith, h))
get_elem?-in_range (x ∷ xs) zero h = (x, refl)
get_elem?-in_range (x ∷ xs) (suc i) h = get_elem?-in_range xs i (omega (arith, h))

length-map {ℓ κ} :
    {A : Type ℓ} {B : Type κ} (f : A → B) (xs : List A) → length (map f xs) ≡ length xs
length-map f [] = refl
length-map f (x ∷ xs) = ap (λ n. suc n) (length-map f xs)

module _ (rl : Reals) where
  open rl use {R}

  length-texts :
      (ps : List (Json R)) (ts : List String) → texts rl ps ≡ ok ts → length ts ≡ length ps
  unfolding texts
  length-texts [] ts h = let e : ts ≡ [] = cc h in rw e
  length-texts (str s ∷ ps) ts h =
      let (more, e, e') = >>=-eq-ok (texts rl ps) (λ more. ok (s ∷ more)) h in
      let same : ts ≡ s ∷ more = cc e' in rw same (ap (λ n. suc n) (length-texts ps more e))
  length-texts (null ∷ ps) ts h = cc
  length-texts (bool b ∷ ps) ts h = cc
  length-texts (int i ∷ ps) ts h = cc
  length-texts (float x ∷ ps) ts h = cc
  length-texts (arr xs ∷ ps) ts h = cc
  length-texts (obj d ∷ ps) ts h = cc

  or_blank-pos : (ps : List (Json R)) → 0 < length (or_blank rl ps)
  unfolding or_blank
  or_blank-pos [] = omega arith
  or_blank-pos (p ∷ ps) = omega arith

  pool_of-pos :
      (s : Shapes rl) (k : Shape) → 0 < length s.calls → 0 < length (pool_of rl s k).prompts
  unfolding pool_of
  pool_of-pos s chat_short h = or_blank-pos s.gsm
  pool_of-pos s deep_reason h = or_blank-pos s.hard
  pool_of-pos s code_gen h = or_blank-pos s.code
  pool_of-pos s tool_call h = h
  pool_of-pos s doc_summary h = omega arith

  build_shapes-pos :
      (by : Groups rl) (shapes : Shape → Pool rl) (k : Shape)
      → build_shapes rl by ≡ ok shapes
      → 0 < length (shapes k).prompts
  unfolding build_shapes
  build_shapes-pos by shapes k h =
      let (blob, e, h') =
        >>=-eq-ok (texts rl (prompts_of rl "ifeval" by ++ prompts_of rl "gsm8k" by))
          (λ blob. texts rl (or_blank rl (prompts_of rl "ifeval" by)) >>= λ calls.
            ok (pool_of rl (built rl by blob calls)))
          h in
      let (calls, e', h'') =
        >>=-eq-ok (texts rl (or_blank rl (prompts_of rl "ifeval" by)))
          (λ calls. ok (pool_of rl (built rl by blob calls))) h' in
      let same : shapes ≡ pool_of rl (built rl by blob calls) = cc h'' in
      rw same (
        pool_of-pos (built rl by blob calls) k (
          omega (
            arith,
            length-map (json_only rl) calls,
            length-texts (or_blank rl (prompts_of rl "ifeval" by)) calls e',
            or_blank-pos (prompts_of rl "ifeval" by),
          )))

  from_prompts-finds :
      (i : ℕ) (k : Shape) (pool : Pool rl) (ps : List (Json R))
      → 0 < length ps
      → (p : Json R) × (get_elem? ps (i % length ps) ≡ some p)
        × (from_prompts rl i k pool ps ≡ some (request rl k pool p))
  from_prompts-finds i k pool [] h = absurd (omega (arith, h))
  from_prompts-finds i k pool (q ∷ ps) h =
      let (p, e) = get_elem?-in_range (q ∷ ps) (i % length (q ∷ ps)) (mod-lt i h) in
      (p, e, ap (λ o. found rl k pool o) e)

  -- Where build_shapes returns, every request of a worker finds its prompt: the request number i
  -- is for the shape number i of the five, going round, with the prompt number i of the pool of
  -- that shape, going round, and with the max_tokens of that shape.
  pub next_request-finds :
      (by : Groups rl) (shapes : Shape → Pool rl) (i : ℕ)
      → build_shapes rl by ≡ ok shapes
      → (r : LoadRequest rl) × (next_request rl shapes i ≡ some r)
        × (r.shape ≡ shape_at rl (i % 5))
        × (r.max_tokens ≡ (shapes r.shape).max_tokens)
        × (get_elem? (shapes r.shape).prompts (i % length (shapes r.shape).prompts) ≡ some r.prompt)
  unfolding next_request
  next_request-finds by shapes i h =
      let k = shape_at rl (i % 5) in
      let (p, at, e) =
        from_prompts-finds i k (shapes k) (shapes k).prompts (build_shapes-pos by shapes k h) in
      (request rl k (shapes k) p, e, refl, refl, at)
