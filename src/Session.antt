-- ===== src/Session.antt =====
-- src/embedder/session.rs, the paths of src/embedder/trt_cache/paths.rs and the tokenizer's loading of
-- src/embedder/tokenize.rs: the execution providers, and the loading of a session.
pub mod Loading
mod Tests
use bge_m3_embedding_server.Prelude.{
  ℕ, ◌-◌, ltb, ◌%◌, ◌^◌, max, Bool, true, false, ◌&&◌, not, Option, none, some, List, [], ◌∷◌, ◌++◌,
  if◌then◌else◌, is_empty, Text, codes, text_eq,
}
use bge_m3_embedding_server.Prelude.Integers.{ℤ, pos, negsuc}
use bge_m3_embedding_server.AppError.{
  Result, ok, err, panic, ◌>>=◌, map_err, anyhow, display, ort_err, Error,
}
use bge_m3_embedding_server.Embed.Types.{ModelVariant}
use bge_m3_embedding_server.Worker.Dispatch.{EpSelection, cpu, cuda, tensor_rt}
use bge_m3_embedding_server.ModelFiles.{Hub, ModelFiles, join, download_model_files}

-- `TRT_ENGINE_SUBDIR` and `TRT_TIMING_SUBDIR`
unfoldable pub engine_cache_path : Text → Text
engine_cache_path cache_dir = join cache_dir (codes "trt-engines")

unfoldable pub timing_cache_path : Text → Text
timing_cache_path cache_dir = join cache_dir (codes "trt-timing")

-- The system, the features of the build, and `BGE_M3_COREML_STRATEGY` of the environment.
pub record Build : Type 0 where
  pub macos : Bool
  pub tensorrt_feature : Bool
  pub cuda_feature : Bool
  pub coreml_profile : Bool
  pub coreml_strategy : Option Text

-- What is set on the builder of a provider. Without `error_on_failure`, a provider that cannot be
-- registered is passed over.
pub data Setup : Type 0 where
  core_ml : Bool → Text → Bool → Setup
  tensor_rt_ep : ℤ → Text → Text → Bool → Option ℕ → Setup
  cuda_ep : ℤ → Option ℕ → Setup

pub record Provider : Type 0 where
  pub setup : Setup
  pub error_on_failure : Bool

-- Whether the strategy for CoreML is `FastPrediction`.
unfoldable pub is_fast_prediction : Option Text → Bool
is_fast_prediction none = true
is_fast_prediction (some s) = not (text_eq s (codes "default"))

pub record GpuSessionConfig : Type 0 where
  pub cache_dir : Text
  pub model_variant : ModelVariant
  pub max_seq_length : ℕ
  pub intra_threads : ℕ
  pub ep : EpSelection
  pub device_id : ℕ
  pub trt_max_workspace_bytes : Option ℕ
  pub gpu_mem_limit_bytes : Option ℕ

-- `u32::cast_signed`: the number that the same 32 bits are in two's complement.
unfoldable pub cast_signed : ℕ → ℤ
cast_signed device_id =
    if ltb device_id (2 ^ 31) then pos device_id else negsuc (2 ^ 32 - 1 - device_id)

unfoldable pub tensor_rt_provider : GpuSessionConfig → Provider
unfolding engine_cache_path timing_cache_path cast_signed
tensor_rt_provider cfg = record {
  setup =
      tensor_rt_ep (cast_signed cfg.device_id) (engine_cache_path cfg.cache_dir)
        (timing_cache_path cfg.cache_dir) true cfg.trt_max_workspace_bytes;
  error_on_failure = true;
}

unfoldable pub cuda_provider : GpuSessionConfig → Provider
unfolding cast_signed
cuda_provider cfg = record {
  setup = cuda_ep (cast_signed cfg.device_id) cfg.gpu_mem_limit_bytes;
  error_on_failure = true;
}

-- The providers for a selection on Linux, each where its feature is built in.
unfoldable pub linux_providers : Build → GpuSessionConfig → EpSelection → List Provider
unfolding tensor_rt_provider cuda_provider
linux_providers build cfg tensor_rt =
    if build.tensorrt_feature then tensor_rt_provider cfg ∷ [] else []
linux_providers build cfg cuda = if build.cuda_feature then cuda_provider cfg ∷ [] else []
linux_providers build cfg cpu = []

unfoldable pub execution_providers : Build → GpuSessionConfig → List Provider
unfolding linux_providers is_fast_prediction
execution_providers build cfg =
    if build.macos
    then record {
      setup =
          core_ml (is_fast_prediction build.coreml_strategy) (join cfg.cache_dir (codes "coreml"))
            build.coreml_profile;
      error_on_failure = false;
    }
      ∷ []
    else linux_providers build cfg cfg.ep

-- What ONNX Runtime and the tokenizer library do. A step of the session's builder fails, or goes on.
pub record Libraries (Builder Session Tokenizer : Type 0) : Type 0 where
  pub builder : Result Builder
  pub with_execution_providers : List Provider → Builder → Result Builder
  pub with_optimization_level : ℕ → Builder → Result Builder
  pub with_intra_threads : ℕ → Builder → Result Builder
  pub commit_from_file : Text → Builder → Result Session
  pub tokenizer_from_file : Text → Result Tokenizer
  pub with_truncation : ℕ → Tokenizer → Result Tokenizer
  pub without_padding : Tokenizer → Tokenizer

module _ {Builder Session Tokenizer : Type 0} (libs : Libraries Builder Session Tokenizer) where
  -- The providers are set only if there are any. The optimization level is `Level3`.
  unfoldable pub load_session : Text → List Provider → ℕ → Result Session
  load_session model_path eps intra_threads = do
    fresh ← map_err ort_err libs.builder
    set ←
        (if is_empty eps
          then ok fresh
          else map_err ort_err (libs.with_execution_providers eps fresh))
    optimized ← map_err ort_err (libs.with_optimization_level 3 set)
    threaded ← map_err ort_err (libs.with_intra_threads (max intra_threads 1) optimized)
    map_err ort_err (libs.commit_from_file model_path threaded)

  unfoldable pub load_tokenizer : Text → ℕ → Result Tokenizer
  load_tokenizer tokenizer_path max_seq_length = do
    t ←
        map_err (λ e. anyhow (codes "Failed to load tokenizer: " ++ display e))
          (libs.tokenizer_from_file tokenizer_path)
    t' ←
        map_err (λ e. anyhow (codes "Failed to set truncation: " ++ display e))
          (libs.with_truncation max_seq_length t)
    ok (libs.without_padding t')

  unfoldable pub load_models : Hub → Build → GpuSessionConfig → Result (Session × Tokenizer)
  unfolding load_session load_tokenizer execution_providers download_model_files
  load_models hub build cfg = do
    files ← (download_model_files hub cfg.cache_dir cfg.model_variant []).0
    tokenizer ← load_tokenizer files.tokenizer_path cfg.max_seq_length
    session ← load_session files.onnx_path (execution_providers build cfg) cfg.intra_threads
    ok (session, tokenizer)
