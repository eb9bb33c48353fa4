-- ===== src/Server.antt =====
-- src/lib.rs: the run of the server, from the configuration to its end or its serving of requests.
pub mod Exits
pub mod Shutdown
mod Tests
use bge_m3_embedding_server.Prelude.{
  ℕ, zero, suc, ◌+◌, ◌-◌, ◌/◌, ◌≤◌, ◌≡◌, Bool, true, false, not, ◌&&◌, Option, none, some, List,
  leb, ◌==◌, if◌then◌else◌, length, Text, codes, ◌++◌,
}
use bge_m3_embedding_server.Prelude.Floats.{F64, FitOps}
use bge_m3_embedding_server.AppError.{Error, Result, ok, err, panic, anyhow}
use bge_m3_embedding_server.BinPack.{CostModel, conservative, default_max_workspace}
use bge_m3_embedding_server.Runtime.{Runtime}
use bge_m3_embedding_server.CacheGc.{SmiOutput}
use bge_m3_embedding_server.TrtWarmup.{Host, engine_files_for_sm}
use bge_m3_embedding_server.Handler.{probe_running}
use bge_m3_embedding_server.Worker.Dispatch.{EpSelection, is_tensor_rt}
use bge_m3_embedding_server.Worker.Startup.{detected_sm_for_ep}
use bge_m3_embedding_server.Probe.Cache.{Json, CacheDir, SaveOutcome}
use bge_m3_embedding_server.Probe.Runner.{ProbePool}
use bge_m3_embedding_server.Pool.Spawn.{PoolConfig, Surroundings, EmbedPool, spawn}
use bge_m3_embedding_server.Bootstrap.Readiness.{
  ServerState, Readiness, Found, ReadinessConfig, initial_permits, prefix_err, run_readiness_probe,
}
use bge_m3_embedding_server.SysInfo.{Machine, detect_available_memory}
use bge_m3_embedding_server.Config.{unwrap_or, display_model}
use bge_m3_embedding_server.Config.Lookup.{Config}

-- `WARMUP_POSTCONDITION_FAILED_EXIT_CODE`
abbrev pub warmup_postcondition_failed_exit_code : ℕ
warmup_postcondition_failed_exit_code = 2

unfoldable pub warmup_postcondition_failed : EpSelection → ℕ → Bool
warmup_postcondition_failed ep engine_count = is_tensor_rt ep && (engine_count == 0)

-- The polls of `wait_for_workers_to_exit` from the `k`-th on, with the live workers and the
-- milliseconds that each of them sees; whether all workers have exited, or nothing if the fuel is
-- used up.
unfoldable pub wait_for_workers_to_exit : ℕ → (ℕ → ℕ) → (ℕ → ℕ) → ℕ → ℕ → Option Bool
wait_for_workers_to_exit zero live now deadline k = none
wait_for_workers_to_exit (suc fuel) live now deadline k =
    let rest = wait_for_workers_to_exit fuel live now deadline (suc k) in
    if live k == 0 then some true else if leb deadline (now k) then some false else rest

-- The capacity of the channel of JIT suspects, where there is one.
unfoldable pub jit_suspect_capacity : Bool → EpSelection → Option ℕ
jit_suspect_capacity adaptive_warmup_enabled ep =
    if adaptive_warmup_enabled && is_tensor_rt ep then some 64 else none

-- `cfg.cost_model_override`, or the conservative model.
unfoldable pub initial_cost_model : (f : F64) → Option (CostModel f.Carrier) → CostModel f.Carrier
initial_cost_model f override = unwrap_or override (conservative f default_max_workspace)

-- The part of the worker configuration that the pool reads. The device is a placeholder, and a
-- default build has no collection of the cache.
unfoldable pub pool_config : {F : Type 0} → Config F → PoolConfig
pool_config cfg = record {
  startup = record {
    ep = cfg.ep;
    device_id = 0;
    trt_warmup_shapes = cfg.trt_warmup_shapes;
    prewarm_strict = cfg.prewarm_strict;
    trt_cache_gc_enabled = false;
  };
  gpu_count = cfg.gpu_count;
}

-- How the run goes on: it returns, the process exits with a code, or it serves requests.
pub data Run (f : F64) : Type 0 where
  returns : Result (Unit {0}) → Run f
  exits : ℕ → Run f
  serves : ServerState f → CacheDir → Run f

-- What of the system the run finds, besides what the workers do: the build, the memory, the files,
-- and the replies of the workers to the readiness calls.
pub record System (S : Type 0) : Type 0 where
  pub version : Text
  pub arch : Text
  pub disable_probe_cache : Bool
  pub machine : Machine
  pub cache_dir : CacheDir
  pub save : SaveOutcome
  pub now : ℕ
  pub corpus_file : List Text
  pub readiness : Readiness
  pub pool_state : S
  -- The files of the engine cache after the workers have exited, and the first GPU.
  pub engine_names : List Text
  pub nvidia_smi : SmiOutput

-- The warmup-only run, from the end of the pool's init task on.
unfoldable pub warmup_only_run :
    {f : F64} {S : Type 0} → EpSelection → System S → Result (Unit {0}) → Run f
unfolding warmup_postcondition_failed
warmup_only_run ep system panic = returns (err (anyhow (codes "Worker pool task panicked")))
warmup_only_run ep system (err e) =
    returns (err (prefix_err (codes "Worker pool initialization failed: ") e))
warmup_only_run ep system (ok u) =
    let matching_engine_count =
      length (engine_files_for_sm (detected_sm_for_ep ep system.nvidia_smi) system.engine_names) in
    if warmup_postcondition_failed ep matching_engine_count
    then exits warmup_postcondition_failed_exit_code
    else returns (ok tt)

module _ (rt : Runtime) (host : Host rt) (ops : FitOps rt.floats) (json : Json rt.floats.Carrier)
    {S : Type 0} (probes : ProbePool S) where
  open rt use {floats}

  unfoldable pub readiness_config : Config floats.Carrier → System S → ReadinessConfig floats
  readiness_config cfg system = record {
    workers = cfg.workers;
    safety = cfg.memory_safety_factor;
    cost_model_override = cfg.cost_model_override;
    fingerprint = record {
      server_version = system.version;
      model = display_model cfg.model_variant;
      max_seq = cfg.max_seq_length;
      arch = system.arch;
    };
    disable_probe_cache = system.disable_probe_cache;
  }

  unfoldable pub found_by : System S → EmbedPool rt host → Found floats S
  found_by system pool = record {
    init = pool.init;
    available_bytes = (detect_available_memory system.machine).available_bytes;
    model_rss_per_worker = pool.model_rss_per_worker_bytes;
    cache_dir = system.cache_dir;
    save = system.save;
    now = system.now;
    corpus_file = system.corpus_file;
    readiness = system.readiness;
    pool_state = system.pool_state;
  }

  unfoldable pub initial_state : Config floats.Carrier → ServerState floats
  unfolding initial_cost_model initial_permits
  initial_state cfg = record {
    ready = false;
    probe_status = probe_running;
    cost_model = initial_cost_model floats cfg.cost_model_override;
    request_permits = initial_permits cfg.workers;
  }

  -- A startup that fails exits; the requests that come in meanwhile are refused by `check_ready`. A
  -- panic, where it unwinds, ends the startup's task alone.
  unfoldable pub serve_run : Config floats.Carrier → System S → EmbedPool rt host → Run floats
  unfolding readiness_config found_by initial_state
  serve_run cfg system pool =
      let (r, out) =
        run_readiness_probe floats ops json probes (readiness_config cfg system)
          (found_by system pool) (initial_state cfg) in
      elim r [ ok u ↦ serves out.0 out.1 | err e ↦ exits 1 | panic ↦ serves out.0 out.1 ]

  unfoldable pub run : Surroundings rt host → Config floats.Carrier → System S → Run floats
  unfolding pool_config warmup_only_run serve_run
  run around cfg system = elim (spawn rt host around (pool_config cfg) cfg.workers) [
    | ok pool ↦
        if cfg.warmup_only
        then warmup_only_run cfg.ep system pool.init
        else serve_run cfg system pool
    | err e ↦ returns (err e)
    | panic ↦ returns panic
  ]
