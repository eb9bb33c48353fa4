-- ===== src/Pool/Tests.antt =====
-- Pools on the toy runtime, on a machine with two GPUs.
use bge_m3_embedding_server.Prelude.{
  ℕ, refl, List, All, ◌≡◌, not, true, false, ◌||◌, none, some, [], ◌∷◌, ◌==◌, arith, codes,
}
use bge_m3_embedding_server.AppError.{ok, err, panic, anyhow}
use bge_m3_embedding_server.Embed.Toy.{toy}
use bge_m3_embedding_server.TrtWarmup.{Host}
use bge_m3_embedding_server.CacheGc.{not_run}
use bge_m3_embedding_server.Worker.Dispatch.{tensor_rt}
use bge_m3_embedding_server.Worker.Startup.{StartupConfig, startup_worker, prime_panics}
use bge_m3_embedding_server.Worker.Readiness.{
  is_ready, is_ok, crashes, is_refused, startup_worker-decides,
}
use bge_m3_embedding_server.Embed.Types.{fp16}
use bge_m3_embedding_server.ModelFiles.{
  Hub, gave, download_model_files, get_files, get_onnx, get_file, repo_of,
}
use bge_m3_embedding_server.Session.{
  Build, Provider, GpuSessionConfig, Libraries, execution_providers, linux_providers, load_models,
  load_session, load_tokenizer,
}
use bge_m3_embedding_server.Session.Loading.{Registers, IsFor}
use bge_m3_embedding_server.Pool.Devices.{session_config, loading, spawn-devices}
use bge_m3_embedding_server.Pool.Spawn.{
  PoolConfig, EmbedPool, Surroundings, spawned_pool, spawn, clamp_workers, load_from,
  await_worker_signal, joined_of, make_worker_config,
}
use bge_m3_embedding_server.Pool.Loading.{ready_prefix, spawn-spawned_pool, spawn-counts}

abbrev cached : Host toy
cached = record {
  file_names = λ s. codes "profile_sm89.engine" ∷ [];
  fsync_cache_dir = λ s. 2;
  read_process_rss_bytes = λ s. some 1000;
}

abbrev startup : StartupConfig
startup = record {
  ep = tensor_rt;
  device_id = 0;
  trt_warmup_shapes = (1, 2) ∷ (2, 2) ∷ [];
  prewarm_strict = true;
  trt_cache_gc_enabled = false;
}

abbrev config : PoolConfig
config = record { startup = startup; gpu_count = 2 }

-- The models of worker 1 do not load.
abbrev around : Surroundings toy cached
around = record {
  load_models =
      λ id. elim (id == 1) [ true ↦ err (anyhow (codes "no weights")) | false ↦ ok (0, tt) ];
  pre_load_rss = λ id. none;
  nvidia_smi = λ device. not_run;
}

startup_worker-decides_example :
    (is_ready (startup_worker toy cached 0 startup (ok (0, tt)) none not_run 0).signal
      ≡ not (crashes toy cached startup not_run 0 || is_refused toy cached startup not_run 0))
    × (is_ok (startup_worker toy cached 0 startup (ok (0, tt)) none not_run 0).outcome
        ≡ not (crashes toy cached startup not_run 0 || is_refused toy cached startup not_run 0))
startup_worker-decides_example = startup_worker-decides toy cached 0 startup 0 tt none not_run 0

spawn-counts_example :
    (p : EmbedPool toy cached) × (spawn toy cached around config 4 ≡ ok p)
    × (p.spawned_workers ≡ clamp_workers 4 config)
    × (p.loaded_workers
        ≡ ready_prefix toy cached around config (clamp_workers 4 config) 0 (clamp_workers 4 config))
    × (is_ok p.init ≡ (
        ready_prefix toy cached around config (clamp_workers 4 config) 0 (clamp_workers 4 config)
        == clamp_workers 4 config))
spawn-counts_example = spawn-counts toy cached around config 4 (omega arith) (omega arith)

-- No channel has the capacity 0.
no_workers : spawn toy cached around config 0 ≡ panic
unfolding spawn clamp_workers
no_workers = refl

abbrev hub : Hub
hub = record {
  create_dir_all = λ dir. none;
  build = none;
  get = λ repo file. gave file;
  exists = λ path. true;
}

abbrev libs : Libraries ℕ (toy.Session) (toy.Tokenizer)
libs = record {
  builder = ok 0;
  with_execution_providers = λ eps b. ok b;
  with_optimization_level = λ n b. ok b;
  with_intra_threads = λ n b. ok b;
  commit_from_file = λ path b. ok 0;
  tokenizer_from_file = λ path. ok tt;
  with_truncation = λ n t. ok t;
  without_padding = λ t. t;
}

abbrev build : Build
build = record {
  macos = false;
  tensorrt_feature = true;
  cuda_feature = true;
  coreml_profile = false;
  coreml_strategy = none;
}

abbrev base : GpuSessionConfig
base = record {
  cache_dir = codes "/cache";
  model_variant = fp16;
  max_seq_length = 8192;
  intra_threads = 1;
  ep = tensor_rt;
  device_id = 0;
  trt_max_workspace_bytes = none;
  gpu_mem_limit_bytes = none;
}

all_registered : (eps : List Provider) → All (λ p. p.error_on_failure ≡ true → true ≡ true) eps
all_registered [] = tt
all_registered (p ∷ eps) = (λ h. refl, all_registered eps)

libs-Registers : Registers libs (λ p. true)
libs-Registers = record { strict = λ eps b b' h. all_registered eps }

-- Two GPUs, and no shapes to warm up.
abbrev gpu_config : PoolConfig
gpu_config = record { startup = record startup { trt_warmup_shapes = [] }; gpu_count = 2 }

abbrev gpu_pool : EmbedPool toy cached
gpu_pool =
    spawned_pool toy cached
      (loading toy cached libs hub build base (λ id. none) (λ d. not_run) gpu_config
        (clamp_workers 4 gpu_config))
      gpu_config (clamp_workers 4 gpu_config)

returns :
    spawn toy cached
      (loading toy cached libs hub build base
        (λ id. none)
        (λ d. not_run)
        gpu_config
        (clamp_workers 4 gpu_config))
      gpu_config
      4
    ≡ ok gpu_pool
returns = spawn-spawned_pool toy cached _ gpu_config 4 (omega arith) (omega arith)

both_loaded : gpu_pool.loaded_workers ≡ 2
unfolding spawned_pool spawn clamp_workers load_from await_worker_signal joined_of
    make_worker_config startup_worker prime_panics session_config load_models load_session
    load_tokenizer execution_providers linux_providers download_model_files get_files get_onnx
    get_file repo_of
both_loaded = refl

-- Worker 1 runs on device 1.
spawn-devices_example :
    (p : Provider) × (execution_providers build
        (session_config base (make_worker_config gpu_config (clamp_workers 4 gpu_config) 1))
      ≡ p ∷ [])
    × (IsFor tensor_rt 1 p.setup)
    × (true ≡ true)
spawn-devices_example =
    spawn-devices toy cached libs hub build base (λ id. none) (λ d. not_run) (λ p. true)
      libs-Registers gpu_config 4 1 (omega arith) refl refl gpu_pool returns
      (omega (arith, both_loaded))
