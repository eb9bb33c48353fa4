-- ===== src/Pool/Spawn.antt =====
-- src/embedder/pool.rs: the pool spawns its workers one after the other, and waits for each of them
-- to signal that it is ready.
use bge_m3_embedding_server.Prelude.{
  ◌==◌, ◌||◌, ◌-◌, ℕ, zero, suc, ◌*◌, ◌%◌, ◌^◌, max, Bool, true, false, not, ◌&&◌, Option, none,
  some, List, [], ◌∷◌, ◌++◌, ltb, if◌then◌else◌, is_empty, codes, decimal,
}
use bge_m3_embedding_server.AppError.{Error, Result, ok, err, panic, anyhow, display}
use bge_m3_embedding_server.Runtime.{Runtime}
use bge_m3_embedding_server.Scores.{median_usize}
use bge_m3_embedding_server.TrtWarmup.{Host, shard_shapes}
use bge_m3_embedding_server.CacheGc.{SmiOutput}
use bge_m3_embedding_server.Worker.Dispatch.{EpSelection, cpu, cuda, tensor_rt, is_tensor_rt}
use bge_m3_embedding_server.Worker.Run.{fetch_add_one}
use bge_m3_embedding_server.Worker.Startup.{StartupConfig, Startup, startup_worker}

-- How the thread of a worker ends.
pub data Joined : Type 0 where
  finished panicked : Joined
  failed : Error → Joined

-- The init task keeps a sender, so the channel is never closed while it waits: a thread that sends
-- no signal is noticed by its end. The signal is preferred.
unfoldable pub await_worker_signal : ℕ → Option (Result ℕ) → Joined → Result ℕ
await_worker_signal id (some (ok delta)) joined = ok delta
await_worker_signal id (some (err e)) joined =
    err
      (anyhow (codes "Worker " ++ (decimal id ++ (codes " failed to load models: " ++ display e))))
await_worker_signal id (some panic) joined = panic
await_worker_signal id none finished = err (
    anyhow (codes "Worker " ++ (decimal id ++ codes " exited cleanly without signaling readiness")))
await_worker_signal id none (failed e) = err (
    anyhow (
      codes "Worker "
      ++ (decimal id ++ (codes " exited with error before signaling ready: " ++ display e))))
await_worker_signal id none panicked =
    err (anyhow (codes "Worker " ++ (decimal id ++ codes " panicked before signaling ready")))

unfoldable pub joined_of : {A : Type 0} → Result A → Joined
joined_of (ok a) = finished
joined_of (err e) = failed e
joined_of panic = panicked

-- The part of `WorkerConfig` that the pool reads: the startup of a worker, and the GPUs.
pub record PoolConfig : Type 0 where
  pub startup : StartupConfig
  pub gpu_count : ℕ

-- `config.ep != EpSelection::Cpu`
abbrev pub is_gpu : EpSelection → Bool
is_gpu cpu = false
is_gpu cuda = true
is_gpu tensor_rt = true

-- `config.gpu_count.max(1)`
abbrev pub gpus : PoolConfig → ℕ
gpus config = max config.gpu_count 1

unfoldable pub clamp_workers : ℕ → PoolConfig → ℕ
clamp_workers n config = if is_gpu config.startup.ep && ltb (gpus config) n then gpus config else n

-- `u32::try_from(n).unwrap_or(d)`
abbrev pub to_u32_or : ℕ → ℕ → ℕ
to_u32_or n d = if ltb n (2 ^ 32) then n else d

unfoldable pub make_worker_config : PoolConfig → ℕ → ℕ → StartupConfig
make_worker_config config n id =
    let shards =
      is_tensor_rt config.startup.ep
      && (ltb 1 n && not (is_empty config.startup.trt_warmup_shapes)) in
    record config.startup {
      device_id = to_u32_or id 0 % to_u32_or (gpus config) 1;
      trt_warmup_shapes =
          if shards
          then shard_shapes config.startup.trt_warmup_shapes id n
          else config.startup.trt_warmup_shapes;
    }

module _ (rt : Runtime) (host : Host rt) where
  open rt use {Session, Tokenizer, sort}

  -- What the workers find: the models and the memory before them, and the GPU of a device.
  pub record Surroundings : Type 0 where
    pub load_models : ℕ → Result (Session × Tokenizer)
    pub pre_load_rss : ℕ → Option ℕ
    pub nvidia_smi : ℕ → SmiOutput

  abbrev pub start_worker : Surroundings → PoolConfig → ℕ → ℕ → ℕ → Startup rt host
  start_worker around config n id ceiling =
      let wc = make_worker_config config n id in
      startup_worker rt host id wc (around.load_models id) (around.pre_load_rss id)
        (around.nvidia_smi wc.device_id) ceiling

  -- The variables of the init task, and how it stands.
  pub record Loading : Type 0 where
    pub rss_deltas : List ℕ
    pub loaded_workers : ℕ
    pub warmed_seq_ceiling : ℕ
    pub result : Result (Unit {0})

  -- A worker that is ready is counted, and the next one is spawned; the first that is not ends the
  -- task.
  unfoldable pub load_from : Surroundings → PoolConfig → ℕ → ℕ → ℕ → List ℕ → ℕ → ℕ → Loading
  unfolding await_worker_signal joined_of make_worker_config
  load_from around config n id zero rss_deltas loaded ceiling = record {
    rss_deltas = rss_deltas;
    loaded_workers = loaded;
    warmed_seq_ceiling = ceiling;
    result = ok tt;
  }
  load_from around config n id (suc more) rss_deltas loaded ceiling =
      let st = start_worker around config n id ceiling in
      let stopped : Result (Unit {0}) → Loading = λ r. record {
        rss_deltas = rss_deltas;
        loaded_workers = loaded;
        warmed_seq_ceiling = st.warmed_seq_ceiling;
        result = r;
      } in
      elim (await_worker_signal id st.signal (joined_of st.outcome)) [
        | err e ↦ stopped (err e)
        | panic ↦ stopped panic
        | ok delta ↦
            load_from around config n (suc id) more (rss_deltas ++ delta ∷ [])
              (fetch_add_one loaded) st.warmed_seq_ceiling
      ]

  -- `EmbedPool`, once its init task has ended.
  pub record EmbedPool : Type 0 where
    pub capacity : ℕ
    pub spawned_workers : ℕ
    pub loaded_workers : ℕ
    pub model_rss_per_worker_bytes : ℕ
    pub warmed_seq_ceiling : ℕ
    pub init : Result (Unit {0})

  -- The pool of `n` workers, at the end of its init task. The median of the deltas is stored only if
  -- all workers are ready.
  unfoldable pub spawned_pool : Surroundings → PoolConfig → ℕ → EmbedPool
  unfolding load_from
  spawned_pool around config n =
      let l = load_from around config n 0 n [] 0 0 in
      record {
        capacity = n * 4;
        spawned_workers = n;
        loaded_workers = l.loaded_workers;
        model_rss_per_worker_bytes = elim l.result [
          | ok u ↦ median_usize sort l.rss_deltas
          | err e ↦ 0
          | panic ↦ 0
        ];
        warmed_seq_ceiling = l.warmed_seq_ceiling;
        init = l.result;
      }

  -- A bounded channel panics on a capacity of 0, and on one above the `2^61 - 1` permits of its
  -- semaphore: the call does then, before it spawns a worker.
  unfoldable pub spawn : Surroundings → PoolConfig → ℕ → Result EmbedPool
  unfolding clamp_workers spawned_pool
  spawn around config requested =
      let n = clamp_workers requested config in
      if (n == 0) || ltb (2 ^ 61 - 1) (n * 4) then panic else ok (spawned_pool around config n)
