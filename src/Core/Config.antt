-- ===== src/Core/Config.antt =====
-- The constants of console_core.py: presets, engines, workers, the baseline and the disk limits.
use runboard_lcp.Base.{ℕ, String, Option, none, some, List, [], ◌∷◌}

pub record Preset : Type 0 where
  pub label : String
  pub runner : String
  pub limit_per_family : Option ℕ
  pub rows_hint : ℕ
  pub families : String
  pub max_tokens : ℕ
  pub est_minutes : ℕ
  pub note : String

abbrev smoke_20 : Preset
smoke_20 = record {
  label = "smoke";
  runner = "lite";
  limit_per_family = some 7;
  rows_hint = 21;
  families = "gsm8k 7, ifeval 7, hard_reasoning 7";
  max_tokens = 8192;
  est_minutes = 5;
  note = "directed subset; hard_reasoning rows are written for adjudication, not auto-graded";
}

abbrev quick_60 : Preset
quick_60 = record {
  label = "quick";
  runner = "lite";
  limit_per_family = some 20;
  rows_hint = 60;
  families = "gsm8k 20, ifeval 20, hard_reasoning 20";
  max_tokens = 8192;
  est_minutes = 15;
  note = "directed subset; same graders as the frozen kit";
}

abbrev kit_140 : Preset
kit_140 = record {
  label = "kit 140";
  runner = "lite";
  limit_per_family = some 0;
  rows_hint = 140;
  families = "gsm8k 80, ifeval 40, hard_reasoning 20";
  max_tokens = 16384;
  est_minutes = 45;
  note =
      "this is the banked 140-row kit; humaneval is excluded by the runner (unpublished sandbox)";
}

abbrev kit_180 : Preset
kit_180 = record {
  label = "kit 180 frozen";
  runner = "frozen";
  limit_per_family = none;
  rows_hint = 180;
  families = "gsm8k 80, ifeval 40, humaneval 40, hard_reasoning 20";
  max_tokens = 16384;
  est_minutes = 90;
  note =
      "full fidelity via the frozen runner, including the humaneval sandbox; needs the sandbox image";
}

unfoldable pub presets : List (String × Preset)
presets =
    ("smoke-20", smoke_20)
    ∷ ("quick-60", quick_60)
    ∷ ("kit-140", kit_140)
    ∷ ("kit-180", kit_180)
    ∷ []

pub record Engine : Type 0 where
  pub label : String
  pub switch : Option String

unfoldable pub engines : List (String × Engine)
engines =
    ("current", record { label = "whatever is serving now (no switch)"; switch = none })
    ∷ ("vllm-cruz", record { label = "vLLM + vllm-exl3 fork + 3.05bpw"; switch = some "vllm-cruz" })
    ∷ ("cruz", record { label = "Cruz fork + 3.05bpw (exllamav3)"; switch = some "cruz" })
    ∷ ("exl3", record { label = "stock exllamav3 + 2.50bpw"; switch = some "exl3" })
    ∷ ("vllm", record { label = "vLLM prod (NVFP4 + abliterated)"; switch = some "vllm" })
    ∷ (
      "tensorfold",
      record { label = "TensorFold v0.3.6.3 + MLX 4-bit MTP"; switch = some "tensorfold" },
    )
    ∷ (
      "tensorfold-glm53",
      record {
        label = "TensorFold v0.6.0 + GLM-5.3-Flash EXL3 4bpw (2x Spark TP=2)";
        switch = some "glm53";
      },
    )
    ∷ []

abbrev pub max_workers : ℕ
max_workers = 4

unfoldable pub default_workers : List (String × ℕ)
default_workers = ("frozen", 2) ∷ ("lite", 1) ∷ []

abbrev pub baseline : String
baseline = "tensorfold-glm53"

abbrev pub disk_floor_gb : ℕ
disk_floor_gb = 200

abbrev pub max_download_gb : ℕ
max_download_gb = 1000
