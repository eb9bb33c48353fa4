-- ===== src/Config.antt =====
-- src/config.rs: the configuration from the environment variables, which are a function from their
-- names. Numbers of `f64` and the count of GPUs are read by parameters.
pub mod Lookup
pub mod Ranges
pub mod Shapes
mod Tests
use bge_m3_embedding_server.Prelude.{
  ℕ, zero, suc, ◌+◌, ◌-◌, ◌*◌, ◌^◌, max, Bool, true, false, not, ◌&&◌, ◌||◌, Option, none, some,
  List, [], ◌∷◌, ◌++◌, ltb, leb, ◌==◌, if◌then◌else◌, is_empty, Text, codes, text_eq, is_digit,
  split, split_once, trim,
}
use bge_m3_embedding_server.AppError.{Error, anyhow}
use bge_m3_embedding_server.Prelude.Floats.{F64, FitOps, clamp}
use bge_m3_embedding_server.BinPack.{CostModel, conservative, default_max_workspace}
use bge_m3_embedding_server.Embed.Types.{ModelVariant, fp32, fp16, int8}
use bge_m3_embedding_server.TrtWarmup.{Shape}
use bge_m3_embedding_server.Worker.Dispatch.{EpSelection, cpu, cuda, tensor_rt}

-- The value of a text of digits, behind a value.
unfoldable pub parse_digits : Text → ℕ → Option ℕ
parse_digits [] v = some v
parse_digits (c ∷ t) v =
    let rest = parse_digits t (v * 10 + (c - b'0')) in if is_digit c then rest else none

-- A number that fits the type. The standard library stops at the first digit that does not fit.
abbrev pub below : ℕ → Option ℕ → Option ℕ
below bound none = none
below bound (some n) = if ltb n bound then some n else none

-- `parse::<uN>()`: digits, with a `+` before them or not.
unfoldable pub parse_uint : ℕ → Text → Option ℕ
unfolding parse_digits
parse_uint bound [] = none
parse_uint bound (c ∷ t) =
    if (c == b'+') && not (is_empty t)
    then below bound (parse_digits t 0)
    else below bound (parse_digits (c ∷ t) 0)

abbrev pub usize_bound : ℕ
usize_bound = 2 ^ 64

-- `DEFAULT_TRT_WARMUP_SHAPES`
abbrev pub seq_tiers : ℕ → List Shape → List Shape
seq_tiers b rest = (b, 128) ∷ (b, 512) ∷ (b, 2048) ∷ (b, 8192) ∷ rest

abbrev pub default_trt_warmup_shapes : List Shape
default_trt_warmup_shapes =
    seq_tiers 1 (seq_tiers 2 (seq_tiers 4 (seq_tiers 8 (seq_tiers 16 (seq_tiers 32 [])))))

abbrev pub both_numbers : Option ℕ → Option ℕ → Option Shape
both_numbers (some b) (some l) = some (b, l)
both_numbers (some b) none = none
both_numbers none l = none

-- A token `BxL`. Without an `x`, there is no second part.
unfoldable pub parse_shape : Text → Option Shape
unfolding parse_uint
parse_shape token = elim (split_once b'x' (trim token)) [
  | none ↦ none
  | some r ↦ both_numbers (parse_uint usize_bound r.0) (parse_uint usize_bound r.1)
]

unfoldable pub parse_shapes : List Text → List Shape
unfolding parse_shape
parse_shapes [] = []
parse_shapes (token ∷ tokens) =
    let rest = parse_shapes tokens in elim (parse_shape token) [ none ↦ rest | some s ↦ s ∷ rest ]

abbrev pub or_default : List Shape → List Shape
or_default [] = default_trt_warmup_shapes
or_default (s ∷ ss) = s ∷ ss

unfoldable pub parse_trt_warmup_shapes : Option Text → List Shape
unfolding parse_shapes
parse_trt_warmup_shapes none = default_trt_warmup_shapes
parse_trt_warmup_shapes (some val) =
    if is_empty (trim val)
    then default_trt_warmup_shapes
    else or_default (parse_shapes (split b',' val))

-- The `Display` of the enumerations, and how they are read.
unfoldable pub display_model : ModelVariant → Text
display_model fp32 = codes "fp32"
display_model fp16 = codes "fp16"
display_model int8 = codes "int8"

unfoldable pub display_ep : EpSelection → Text
display_ep cpu = codes "cpu"
display_ep cuda = codes "cuda"
display_ep tensor_rt = codes "tensorrt"

abbrev pub is_value : Text → Option Text → Bool
is_value s none = false
is_value s (some v) = text_eq v s

unfoldable pub model_from : Option Text → ModelVariant
model_from v =
    if is_value (codes "fp32") v then fp32 else if is_value (codes "int8") v then int8 else fp16

unfoldable pub ep_from : Option Text → EpSelection
ep_from v =
    if is_value (codes "cuda") v
    then cuda
    else if is_value (codes "tensorrt") v
    then tensor_rt
    else cpu

-- `matches!(v, "1" | "true" | "yes")`
abbrev pub enables : Option Text → Bool
enables v = is_value (codes "1") v || (is_value (codes "true") v || is_value (codes "yes") v)

-- `matches!(v, "0" | "false" | "no")`
abbrev pub disables : Option Text → Bool
disables v = is_value (codes "0") v || (is_value (codes "false") v || is_value (codes "no") v)

-- `BGE_M3_ENGINE_PROPAGATION_ENABLED`, with its default.
unfoldable pub propagation_from : Option Text → Bool → Bool
propagation_from v fallback =
    if is_value (codes "0") v then false else if is_value (codes "1") v then true else fallback

-- `MODEL_MAX_SEQ`
abbrev pub model_max_seq : ℕ
model_max_seq = 8192

unfoldable pub max_seq_length_from : ℕ → ℕ
max_seq_length_from raw = if (raw == 0) || ltb model_max_seq raw then model_max_seq else raw

-- `idle_timeout_secs > 0`
unfoldable pub idle_timeout_from : ℕ → Option ℕ
idle_timeout_from secs = if ltb 0 secs then some secs else none

-- `DEFAULT_GPU_VRAM_BUDGET_BYTES`
abbrev pub default_gpu_vram_budget_bytes : ℕ
default_gpu_vram_budget_bytes = 10 * 1024 * 1024 * 1024

abbrev pub unwrap_or {ℓ} : {A : Type ℓ} → Option A → A → A
unwrap_or none d = d
unwrap_or (some a) d = a

-- The two paths of TLS must both be there, or neither.
unfoldable pub validate : Option Text → Option Text → Option Error
validate (some cert) (some key) = none
validate none none = none
validate (some cert) none = some (
    anyhow (
      codes
        "TLS misconfiguration: BGE_M3_TLS_CERT_PATH and BGE_M3_TLS_KEY_PATH must both be set or both be absent"))
validate none (some key) = some (
    anyhow (
      codes
        "TLS misconfiguration: BGE_M3_TLS_CERT_PATH and BGE_M3_TLS_KEY_PATH must both be set or both be absent"))

module _ (f : F64) (ops : FitOps f) where
  open f use {Carrier, of_ℕ, mul, to_usize}
  open ops use {add, ratio}

  -- The reading of an `f64`, and the number of GPUs that is detected for an optional setting.
  pub record Environment : Type 0 where
    pub lookup : Text → Option Text
    pub parse_f64 : Text → Option Carrier
    pub detect_gpu_count : Option ℕ → ℕ

  -- `lookup(name).and_then(|v| v.parse::<uN>().ok())`
  unfoldable pub number : Environment → ℕ → Text → Option ℕ
  unfolding parse_uint
  number env bound name = elim (env.lookup name) [ none ↦ none | some v ↦ parse_uint bound v ]

  unfoldable pub float : Environment → Text → Option Carrier
  float env name = elim (env.lookup name) [ none ↦ none | some v ↦ env.parse_f64 v ]

  unfoldable pub available_or_default : Environment → ℕ
  unfolding number
  available_or_default env =
      unwrap_or (number env usize_bound (codes "BGE_M3_AVAILABLE_MEMORY_BYTES"))
        default_max_workspace

  -- The legacy budget, in tokens.
  unfoldable pub token_budget_model : ℕ → ℕ → CostModel Carrier
  token_budget_model token_budget max_seq_length =
      let cost_per_position = add (of_ℕ 16384) (mul (of_ℕ 8) (of_ℕ max_seq_length)) in
      record {
        a = of_ℕ 16384;
        b = of_ℕ 8;
        max_workspace_bytes = to_usize (mul (of_ℕ token_budget) cost_per_position);
      }

  unfoldable pub coefficients_model :
      Option Carrier → Option Carrier → ℕ → Option (CostModel Carrier)
  coefficients_model (some a) (some b) max_workspace =
      some (record { a = a; b = b; max_workspace_bytes = max_workspace })
  coefficients_model (some a) none max_workspace = none
  coefficients_model none b max_workspace = none

  unfoldable pub resolve_cost_model_override : Environment → ℕ → Option (CostModel Carrier)
  unfolding number float available_or_default token_budget_model coefficients_model
  resolve_cost_model_override env max_seq_length =
      if enables (env.lookup (codes "BGE_M3_DISABLE_AUTO_BUDGET"))
      then some (conservative f (available_or_default env))
      else elim (number env usize_bound (codes "BGE_M3_TOKEN_BUDGET")) [
        | some token_budget ↦ some (token_budget_model token_budget max_seq_length)
        | none ↦
            coefficients_model (float env (codes "BGE_M3_COST_MODEL_A"))
              (float env (codes "BGE_M3_COST_MODEL_B")) (available_or_default env)
      ]

  -- With a GPU, its memory is the budget, whatever else is set.
  unfoldable pub gpu_override :
      EpSelection → Option ℕ → Option (CostModel Carrier) → Option (CostModel Carrier)
  gpu_override cpu vram override = override
  gpu_override cuda vram override =
      some (conservative f (unwrap_or vram default_gpu_vram_budget_bytes))
  gpu_override tensor_rt vram override =
      some (conservative f (unwrap_or vram default_gpu_vram_budget_bytes))
