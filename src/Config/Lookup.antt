-- ===== src/Config/Lookup.antt =====
-- src/config.rs: `Config::from_lookup`, without the log lines.
use bge_m3_embedding_server.Prelude.{ℕ, ◌^◌, max, Bool, not, Option, List, Text, codes}
use bge_m3_embedding_server.Prelude.Floats.{F64, FitOps, clamp}
use bge_m3_embedding_server.BinPack.{CostModel}
use bge_m3_embedding_server.Embed.Types.{ModelVariant}
use bge_m3_embedding_server.TrtWarmup.{Shape}
use bge_m3_embedding_server.Worker.Dispatch.{EpSelection}
use bge_m3_embedding_server.Config.{
  Environment, number, float, unwrap_or, usize_bound, parse_trt_warmup_shapes, model_from, ep_from,
  enables, disables, propagation_from, model_max_seq, max_seq_length_from, idle_timeout_from,
  resolve_cost_model_override, gpu_override,
}

pub record Config (F : Type 0) : Type 0 where
  pub cache_dir : Text
  pub bind_addr : Text
  pub tls_cert_path : Option Text
  pub tls_key_path : Option Text
  pub workers : ℕ
  pub intra_threads : ℕ
  pub max_batch : ℕ
  pub max_seq_length : ℕ
  pub idle_timeout : Option ℕ
  pub model_variant : ModelVariant
  pub memory_safety_factor : F
  pub cost_model_override : Option (CostModel F)
  pub heartbeat_secs : ℕ
  pub ep : EpSelection
  pub gpu_vram_budget_bytes : Option ℕ
  pub trt_max_workspace_bytes : Option ℕ
  pub gpu_mem_limit_bytes : Option ℕ
  pub adaptive_warmup_enabled : Bool
  pub engine_propagation_enabled : Bool
  pub adaptive_warmup_quiet_secs : ℕ
  pub adaptive_warmup_max_shapes_per_hour : ℕ
  pub gpu_count : ℕ
  pub trt_warmup_shapes : List Shape
  pub max_body_bytes : ℕ
  pub circuit_breaker_threshold : ℕ
  pub trt_inband_jit_guard_enabled : Bool
  pub trt_inband_jit_guard_seq : ℕ
  pub warmup_only : Bool
  pub prewarm_strict : Bool

module _ (f : F64) (ops : FitOps f) (env : Environment f ops) where
  open f use {Carrier, of_ℕ}
  open ops use {ratio}

  abbrev usize_or : Text → ℕ → ℕ
  usize_or name d = unwrap_or (number f ops env usize_bound name) d

  unfoldable pub from_lookup : Config Carrier
  unfolding model_from ep_from propagation_from max_seq_length_from idle_timeout_from
      resolve_cost_model_override gpu_override parse_trt_warmup_shapes float
  from_lookup =
      let max_seq_length =
        max_seq_length_from (usize_or (codes "BGE_M3_MAX_SEQ_LENGTH") model_max_seq) in
      let ep = ep_from (env.lookup (codes "BGE_M3_EP")) in
      let vram = number f ops env usize_bound (codes "BGE_M3_GPU_VRAM_BUDGET_BYTES") in
      let adaptive = enables (env.lookup (codes "BGE_M3_ADAPTIVE_WARMUP_ENABLED")) in
      record {
        cache_dir = unwrap_or (env.lookup (codes "BGE_M3_CACHE_DIR")) (codes "/cache");
        bind_addr = unwrap_or (env.lookup (codes "BGE_M3_BIND")) (codes "0.0.0.0:8081");
        tls_cert_path = env.lookup (codes "BGE_M3_TLS_CERT_PATH");
        tls_key_path = env.lookup (codes "BGE_M3_TLS_KEY_PATH");
        workers = max (usize_or (codes "BGE_M3_WORKERS") 2) 1;
        intra_threads = max (usize_or (codes "BGE_M3_INTRA_THREADS") 1) 1;
        max_batch = max (usize_or (codes "BGE_M3_MAX_BATCH") 256) 1;
        max_seq_length = max_seq_length;
        idle_timeout =
            idle_timeout_from
              (unwrap_or (number f ops env (2 ^ 64) (codes "BGE_M3_IDLE_TIMEOUT_SECS")) 300);
        model_variant = model_from (env.lookup (codes "BGE_M3_MODEL"));
        memory_safety_factor =
            clamp ops
              (unwrap_or (float f ops env (codes "BGE_M3_MEMORY_SAFETY_FACTOR")) (ratio 7 10))
              (ratio 1 10) (of_ℕ 1);
        cost_model_override =
            gpu_override f ops ep vram (resolve_cost_model_override f ops env max_seq_length);
        heartbeat_secs = unwrap_or (number f ops env (2 ^ 64) (codes "BGE_M3_HEARTBEAT_SECS")) 60;
        ep = ep;
        gpu_vram_budget_bytes = vram;
        trt_max_workspace_bytes =
            number f ops env usize_bound (codes "BGE_M3_TRT_MAX_WORKSPACE_BYTES");
        gpu_mem_limit_bytes = number f ops env usize_bound (codes "BGE_M3_GPU_MEM_LIMIT_BYTES");
        adaptive_warmup_enabled = adaptive;
        engine_propagation_enabled =
            propagation_from (env.lookup (codes "BGE_M3_ENGINE_PROPAGATION_ENABLED")) adaptive;
        adaptive_warmup_quiet_secs =
            unwrap_or (number f ops env (2 ^ 64) (codes "BGE_M3_ADAPTIVE_WARMUP_QUIET_SECS")) 3;
        adaptive_warmup_max_shapes_per_hour =
            unwrap_or
              (number f ops env (2 ^ 32) (codes "BGE_M3_ADAPTIVE_WARMUP_MAX_SHAPES_PER_HOUR")) 12;
        gpu_count = env.detect_gpu_count (number f ops env usize_bound (codes "BGE_M3_GPU_COUNT"));
        trt_warmup_shapes = parse_trt_warmup_shapes (env.lookup (codes "BGE_M3_TRT_WARMUP_SHAPES"));
        max_body_bytes = usize_or (codes "BGE_M3_MAX_BODY_BYTES") 33554432;
        circuit_breaker_threshold = max (usize_or (codes "BGE_M3_CIRCUIT_BREAKER_THRESHOLD") 5) 1;
        trt_inband_jit_guard_enabled =
            not (disables (env.lookup (codes "BGE_M3_TRT_INBAND_JIT_GUARD")));
        trt_inband_jit_guard_seq = max (usize_or (codes "BGE_M3_TRT_INBAND_JIT_GUARD_SEQ") 4096) 1;
        warmup_only = enables (env.lookup (codes "BGE_M3_WARMUP_ONLY"));
        prewarm_strict = not (disables (env.lookup (codes "BGE_M3_PREWARM_STRICT")));
      }
