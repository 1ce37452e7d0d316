-- ===== src/Registry/Catalogue.antt =====
-- CATALOGUE of registry.py, with the fields that the program reads: the pack's description, its path
-- and the banked numbers are only shown. `switch_value_for` of dispatcher.py reads it too.
pub mod Tokens
use runboard_lcp.Base.{String, Bool, Option, none, some, List, [], ◌∷◌, ◌==◌, if◌then◌else◌}

pub data Kind : Type 0 where
  systemd_unit docker : Kind

pub record Entry : Type 0 where
  pub id : String
  pub label : String
  pub engine : String
  pub kind : Kind
  pub unit : String
  pub switch : Option String
  pub model_id : String
  pub is_default : Bool

unfoldable pub catalogue : List Entry
catalogue =
    record {
      id = "cruz";
      label = "Cruz fork + 3.05bpw";
      engine = "exllamav3 Cruz fork 523ecd3";
      kind = systemd_unit;
      unit = "exl3-cruz-fork.service";
      switch = some "cruz";
      model_id = "qwen38-flash-next-exl3";
      is_default = Bool.false;
    }
    ∷ record {
      id = "vllm-cruz";
      label = "vLLM + vllm-exl3 fork + 3.05bpw";
      engine = "vLLM + vllm-exl3 fork";
      kind = systemd_unit;
      unit = "vllm-exl3-cruz.service";
      switch = some "vllm-cruz";
      model_id = "qwen3.8-flash-next";
      is_default = Bool.false;
    }
    ∷ record {
      id = "exl3-2.5bpw";
      label = "stock exllamav3 + 2.50bpw";
      engine = "exllamav3 r0b0tlab gb10";
      kind = systemd_unit;
      unit = "exl3-2.5bpw.service";
      switch = some "exl3";
      model_id = "qwen38-flash-next-exl3";
      is_default = Bool.false;
    }
    ∷ record {
      id = "vllm-prod";
      label = "vLLM prod (NVFP4 + abliterated)";
      engine = "vLLM, container";
      kind = docker;
      unit = "vllm-fn-tp1";
      switch = some "vllm";
      model_id = "qwen38-flash-next-exl3";
      is_default = Bool.false;
    }
    ∷ record {
      id = "tensorfold";
      label = "TensorFold v0.3.6.3 + MLX 4-bit";
      engine = "TensorFold v0.3.6.3 (patched, CUDA/GB10)";
      kind = systemd_unit;
      unit = "tensorfold.service";
      switch = some "tensorfold";
      model_id = "Qwen3.8-Flash-Next";
      is_default = Bool.false;
    }
    ∷ record {
      id = "tensorfold-glm53";
      label = "TensorFold v0.6.0 + GLM-5.3-Flash EXL3 4bpw (2x Spark, TP=2)";
      engine = "TensorFold v0.6.0 (container, TP=2)";
      kind = docker;
      unit = "glm53-flash-tf";
      switch = some "glm53";
      model_id = "GLM-5.3-Flash-EXL3";
      is_default = Bool.true;
    }
    ∷ []

switch_in : List Entry → String → Option String
switch_in [] target = none
switch_in (e ∷ es) target = if e.id == target then e.switch else switch_in es target

-- dispatcher.switch_value_for: the serve.sh token of a live engine id.
unfoldable pub switch_value_for : String → Option String
unfolding switch_in catalogue
switch_value_for target = switch_in catalogue target
