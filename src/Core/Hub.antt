-- ===== src/Core/Hub.antt =====
-- The client of the Hub in console_core.py: hf_get, hf_search, hf_revisions, hf_size and hf_plan.
pub mod Revisions
pub mod Fits
use runboard_lcp.Base.{
  ℕ, suc, ◌+◌, String, ◌<>◌, Bool, true, false, not, ◌||◌, ◌&&◌, Option, none, some, List, [], ◌∷◌,
  ◌++◌, take, length, ◌==◌, is_empty, show_nat, if◌then◌else◌,
}
use runboard_lcp.Base.Int.{ℤ, pos}
use runboard_lcp.Base.Try.{Try, ok, raised, type_error, ◌>>=◌}
use runboard_lcp.Core.Config.{disk_floor_gb}
use runboard_lcp.Core.Disk.{Check, Refusal, accepted, refused, fits}
use runboard_lcp.Core.Floats.{Floats}
use runboard_lcp.Core.JobId.{first_chars}
use runboard_lcp.Json.{Json, Items, null, bool, int, float, str, arr, obj, nil, cons, lookup}
use runboard_lcp.Json.Falsy.{is_falsy, get, truthy, items_or_none}

abbrev pub is_in : List String → String → Bool
is_in [] name = false
is_in (x ∷ xs) name = if x == name then true else is_in xs name

module _ (fl : Floats) where
  open fl use {F, lit, of_int, add, gt}

  -- `urlencode` is `urllib.parse.urlencode`; `fetch` is the request, which has 30 seconds, and `json.load`.
  -- `to_gb x` is `round(x / 1e9, 2)`, and `to_tenth x` is `round(x, 1)`.
  pub record Hub : Type 0 where
    pub urlencode : List (String × String) → String
    pub fetch : String → Try (Json F)
    pub is_zero : F → Bool
    pub to_gb : F → F
    pub to_tenth : F → F

  module _ (h : Hub) where
    -- hf_get, which its callers use without the token.
    unfoldable pub hf_get : String → List (String × String) → Try (Json F)
    hf_get path [] = h.fetch ("https://huggingface.co" <> path)
    hf_get path (p ∷ ps) = h.fetch ("https://huggingface.co" <> path <> "?" <> h.urlencode (p ∷ ps))

    abbrev text_of : Option (Json F) → Option String
    text_of (some (str s)) = if is_empty s then none else some s
    text_of v = none

    -- The name of an item, where it has one: a dict has it under `name`. Names are texts.
    unfoldable pub revision_name : Json F → Option String
    unfolding lookup
    revision_name (obj d) = text_of (lookup "name" d)
    revision_name v = text_of (some v)

    -- `names.append(name)` where the name is there and is new
    unfoldable pub add_name : Option String → List String → List String
    add_name none names = names
    add_name (some name) names = if is_in names name then names else names ++ name ∷ []

    unfoldable pub add_names : Items F → List String → List String
    unfolding add_name revision_name
    add_names nil names = names
    add_names (cons item items) names = add_names items (add_name (revision_name item) names)

    -- The branches, then the tags.
    unfoldable pub hf_revisions : String → Try (List String)
    unfolding hf_get get add_names items_or_none
    hf_revisions repo = do
      refs ← hf_get ("/api/models/" <> repo <> "/refs") []
      branches ← get "branches" refs
      items ← items_or_none h.is_zero branches
      tags ← get "tags" refs
      others ← items_or_none h.is_zero tags
      ok (add_names others (add_names items []))

    -- A size as `sum` takes it.
    unfoldable pub bytes_of : Json F → Try F
    bytes_of (int i) = ok (of_int i)
    bytes_of (float x) = ok x
    bytes_of (bool b) = ok (of_int (if b then pos 1 else pos 0))
    bytes_of v = raised type_error

    pub record Sized : Type 0 where
      pub repo : String
      pub revision : Json F
      pub files : ℕ
      pub gb : F

    -- The sizes of the files that have one; then their number and their sum.
    unfoldable pub file_sizes : Items F → Try (List (Json F))
    unfolding get truthy
    file_sizes nil = ok []
    file_sizes (cons f fs) =
        let rest = file_sizes fs in
        do size ← get "size" f; sizes ← rest; ok (with_size (truthy h.is_zero size) sizes)
      where
        with_size : Option (Json F) → List (Json F) → List (Json F)
        with_size none sizes = sizes
        with_size (some v) sizes = v ∷ sizes

    unfoldable pub total_bytes : F → List (Json F) → Try F
    unfolding bytes_of
    total_bytes sum [] = ok sum
    total_bytes sum (v ∷ vs) = do x ← bytes_of v; total_bytes (add sum x) vs

    abbrev or_main : Option (Json F) → Json F
    or_main none = str "main"
    or_main (some v) = v

    -- `revision or (data.get("sha") or "main")`
    unfoldable pub revision_of : Option String → Option (Json F) → Json F
    unfolding truthy
    revision_of (some rev) sha = if is_empty rev then or_main (truthy h.is_zero sha) else str rev
    revision_of none sha = or_main (truthy h.is_zero sha)

    unfoldable pub size_path : String → Option String → String
    size_path repo none = "/api/models/" <> repo
    size_path repo (some rev) =
        if is_empty rev
        then "/api/models/" <> repo
        else "/api/models/" <> repo <> "/revision/" <> rev

    unfoldable pub hf_size : String → Option String → Try Sized
    unfolding hf_get get items_or_none file_sizes total_bytes revision_of size_path
    hf_size repo revision = do
      model ← hf_get (size_path repo revision) (("blobs", "true") ∷ [])
      siblings ← get "siblings" model
      files ← items_or_none h.is_zero siblings
      sizes ← file_sizes files
      total ← total_bytes (lit 0) sizes
      sha ← get "sha" model
      ok (record {
        repo = repo;
        revision = revision_of revision sha;
        files = length sizes;
        gb = h.to_gb total;
      })

    -- One result of a search; `none` is `None`.
    pub record Hit : Type 0 where
      pub repo : Option (Json F)
      pub downloads : Option (Json F)
      pub likes : Option (Json F)
      pub created : String
      pub gated : Bool
      pub tags : List String

    abbrev pub shown_tags : List String
    shown_tags = "exl3" ∷ "gguf" ∷ "nvfp4" ∷ "fp8" ∷ "safetensors" ∷ []

    abbrev first_of : Option (Json F) → Option (Json F) → Option (Json F)
    first_of none other = other
    first_of (some v) other = some v

    -- `(value or "")[:10]`, where the Hub sends a text
    unfoldable pub first_ten : Option (Json F) → Try String
    first_ten none = ok ""
    first_ten (some (str s)) = ok (first_chars 10 s)
    first_ten (some v) = raised type_error

    unfoldable pub kept_tags : Items F → List String
    kept_tags nil = []
    kept_tags (cons (str t) items) =
        let rest = kept_tags items in if is_in shown_tags t then t ∷ rest else rest
    kept_tags (cons v items) = kept_tags items

    abbrev is_there : Option (Json F) → Bool
    is_there none = false
    is_there (some v) = true

    unfoldable pub hit_of : Json F → Try Hit
    unfolding get truthy first_ten kept_tags items_or_none
    hit_of m = do
      id ← get "id" m
      model_id ← get "modelId" m
      downloads ← get "downloads" m
      likes ← get "likes" m
      created ← get "createdAt" m
      day ← first_ten (truthy h.is_zero created)
      gated ← get "gated" m
      tags ← get "tags" m
      items ← items_or_none h.is_zero tags
      ok (record {
        repo = first_of (truthy h.is_zero id) model_id;
        downloads = downloads;
        likes = likes;
        created = day;
        gated = is_there (truthy h.is_zero gated);
        tags = kept_tags items;
      })

    unfoldable pub hits_of : Items F → Try (List Hit)
    unfolding hit_of
    hits_of nil = ok []
    hits_of (cons m ms) = let rest = hits_of ms in do hit ← hit_of m; hits ← rest; ok (hit ∷ hits)

    unfoldable pub list_hits : Json F → Try (List Hit)
    unfolding hits_of
    list_hits (arr ms) = hits_of ms
    list_hits v = ok []

    unfoldable pub hf_search : String → ℕ → Try (List Hit)
    unfolding hf_get list_hits show_nat
    hf_search query limit = do
      rows ← hf_get "/api/models" (
          ("search", query)
          ∷ ("limit", show_nat limit)
          ∷ ("sort", "downloads")
          ∷ ("direction", "-1")
          ∷ [])
      list_hits rows

    -- A size of the plan, with the verdict on its download.
    pub record Choice : Type 0 where
      pub sized : Sized
      pub verdict : Check

    -- One revision of the plan: a failure, or a size that is not above 0, lists nothing.
    -- `later` is what the other revisions list, by the measurements that are left.
    unfoldable pub add_choice : (ℕ → F) → Try Sized → ((ℕ → F) → List Choice) → List Choice
    add_choice free (raised e) later = later free
    add_choice free (ok s) later =
        if gt s.gb (lit 0)
        then record { sized = s; verdict = fits fl (free 0) s.gb } ∷ later (λ i. free (suc i))
        else later free

    unfoldable pub choices_of : String → List String → (ℕ → F) → List Choice
    unfolding hf_size add_choice
    choices_of repo [] free = []
    choices_of repo (rev ∷ revs) free =
        add_choice free (hf_size repo (some rev)) (choices_of repo revs)

    -- `min((s["gb"] for s in sizes), default=0.0)`
    unfoldable pub smaller : F → List Choice → F
    smaller x [] = x
    smaller x (c ∷ cs) = smaller (if gt x c.sized.gb then c.sized.gb else x) cs

    unfoldable pub smallest_of : List Choice → F
    unfolding smaller
    smallest_of [] = lit 0
    smallest_of (c ∷ cs) = smaller c.sized.gb cs

    -- The verdict on the whole plan; `none` stands for `no sized revision found`.
    unfoldable pub plan_verdict : F → F → Option Check
    plan_verdict free smallest = if h.is_zero smallest then none else some (fits fl free smallest)

    pub record Plan : Type 0 where
      pub repo : String
      pub revisions : List String
      pub sizes : List Choice
      pub smallest : F
      pub verdict : Option Check
      pub free : F
      pub floor : F

    -- The measurements of the disk before the one for free_gb: one for each size, and one for the verdict.
    abbrev measured : List Choice → ℕ
    measured sizes = length sizes + (if h.is_zero (smallest_of sizes) then 0 else 1)

    -- `free i` is the free space that disk_free_gb finds at its measurement number `i`.
    unfoldable pub plan_of : (ℕ → F) → String → List String → Plan
    unfolding choices_of smallest_of plan_verdict
    plan_of free repo revs =
        let sizes = choices_of repo (take 12 revs) free in
        record {
          repo = repo;
          revisions = revs;
          sizes = sizes;
          smallest = smallest_of sizes;
          verdict = plan_verdict (free (length sizes)) (smallest_of sizes);
          free = h.to_tenth (free (measured sizes));
          floor = lit disk_floor_gb;
        }

    unfoldable pub hf_plan : (ℕ → F) → String → Try Plan
    unfolding hf_revisions plan_of
    hf_plan free repo = do revs ← hf_revisions repo; ok (plan_of free repo revs)
