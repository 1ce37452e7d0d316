-- ===== src/Tests/Hub.antt =====
-- Answers of the Hub, and the theorems on its client at concrete inputs.
use runboard_lcp.Base.{ℕ, String, ◌≡◌, refl, true, ◌||◌, List, [], ◌=ℕ=◌, ◌==◌, if◌then◌else◌}
use runboard_lcp.Base.Int.{pos}
use runboard_lcp.Base.Try.{ok, ◌>>=◌}
use runboard_lcp.Core.Hub.{Hub, is_in, hf_get, hf_revisions}
use runboard_lcp.Core.Hub.Revisions.{all_distinct, is_named, hf_revisions-lists}
use runboard_lcp.Json.{Json, Items, obj, arr, str, int, null, cons, nil, field, end, lookup}
use runboard_lcp.Json.Falsy.{get, items_or_none}
use runboard_lcp.Tests.{whole}

abbrev refs_url : String
refs_url = "https://huggingface.co/api/models/owner/pack/refs"

abbrev branches : Items ℕ
branches = cons (obj (field "name" (str "main") end)) (cons null (cons (str "3.0bpw") nil))

abbrev tags : Items ℕ
tags = cons (str "main") nil

abbrev refs : Json ℕ
refs = obj (field "branches" (arr branches) (field "tags" (arr tags) end))

-- Each revision has one file of 40 gigabytes.
abbrev model : Json ℕ
model = obj (field "siblings" (arr (cons (obj (field "size" (int (pos 40)) end)) nil)) end)

abbrev hub : Hub whole
hub = record {
  urlencode = λ params. "blobs=true";
  fetch = λ url. if url == refs_url then ok refs else ok model;
  is_zero = λ n. n =ℕ= 0;
  to_gb = λ n. n;
  to_tenth = λ n. n;
}

answers_refs : hf_get whole hub "/api/models/owner/pack/refs" [] ≡ ok refs
unfolding hf_get
answers_refs = refl

has_branches : get "branches" refs >>= items_or_none (λ n. n =ℕ= 0) ≡ ok branches
unfolding get items_or_none lookup
has_branches = refl

has_tags : get "tags" refs >>= items_or_none (λ n. n =ℕ= 0) ≡ ok tags
unfolding get items_or_none lookup
has_tags = refl

hf_revisions-lists_example :
    (names : List String) × (hf_revisions whole hub "owner/pack" ≡ ok names)
    × (all_distinct names ≡ true)
    × ((name : String)
        → is_in names name ≡ (is_named whole hub branches name || is_named whole hub tags name))
hf_revisions-lists_example =
    hf_revisions-lists whole hub "owner/pack" refs branches tags answers_refs has_branches has_tags
