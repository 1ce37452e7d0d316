-- ===== src/Tests/Banked.antt =====
-- Runs to index, and the theorem on them at a concrete input.
use runboard_lcp.Base.{ℕ, String, ◌≡◌, refl, true, false, none, List, [], ◌∷◌, ltb, contains}
use runboard_lcp.Base.Int.{pos}
use runboard_lcp.Base.Try.{ok}
use runboard_lcp.Core.JobId.{Texts}
use runboard_lcp.History.Collect.{Folder, Lane, History, main, deployed_label}
use runboard_lcp.History.Collect.Marked.{is_valid}
use runboard_lcp.History.Collect.Quarantine.{KeptApart, main-KeptApart}
use runboard_lcp.History.Rates.{Statistics, row_rates}
use runboard_lcp.History.Types.All.{all_of, value_or}
use runboard_lcp.Json.{Fields, str, int, obj, field, end}
use runboard_lcp.Tests.Metrics.{naturals}

abbrev first_or_zero : List ℕ → ℕ
first_or_zero [] = 0
first_or_zero (n ∷ ns) = n

abbrev statistics : Statistics naturals
statistics = record { round2 = λ x. x; mean = first_or_zero; median = first_or_zero }

abbrev ascii : Texts ℕ
ascii = record { is_alnum = λ c. true; show = λ v. "?" }

abbrev lower : String → String
lower s = s

abbrev row : Fields ℕ
row =
    field "family" (str "gsm8k")
      (field "completion_tokens" (int (pos 80)) (field "elapsed" (int (pos 4)) end))

abbrev folder : String → Folder naturals statistics ascii lower ltb
folder name = record { name = name; summary = end; rows = obj row ∷ [] }

abbrev folders : List (Folder naturals statistics ascii lower ltb)
folders = folder "INVALID-cruz" ∷ folder "cruz-fork-305bpw" ∷ []

abbrev lane : Lane naturals statistics ascii lower ltb
lane = record { folder = folder "exl3-2.5bpw-deployed-180-repeat"; note = "Lane A2"; closed = end }

per_row : row_rates naturals none (row ∷ row ∷ []) ≡ ok (20 ∷ 20 ∷ [])
unfolding row_rates
per_row = refl

abbrev nothing : History naturals statistics ascii lower ltb
nothing = record { runs = []; quarantined = []; eval_type_index = []; eval_types = [] }

abbrev index : History naturals statistics ascii lower ltb
index = value_or nothing (main naturals statistics ascii lower ltb folders (lane ∷ []))

indexed : main naturals statistics ascii lower ltb folders (lane ∷ []) ≡ ok index
unfolding main
indexed = refl

no_contended_lane : all_of (λ l. is_valid l.folder.name) (lane ∷ []) ≡ true
unfolding all_of
no_contended_lane = refl

main-KeptApart_example : KeptApart naturals statistics ascii lower ltb 3 index
main-KeptApart_example =
    main-KeptApart naturals statistics ascii lower ltb folders (lane ∷ []) index no_contended_lane
      indexed

-- The quant of the deployed lanes does not hold the word that `main` looks for in it.
no_soak : contains deployed_label "deployed" ≡ false
no_soak = refl
