-- ===== src/Pool/Devices.antt =====
-- src/embedder/pool.rs, worker/startup.rs and session.rs together: the GPUs on which the workers of a pool run.
use bge_m3_embedding_server.Prelude.{
  ℕ, zero, suc, ◌+◌, ◌^◌, ◌<◌, ◌≡◌, refl, ap, subst, inl, inr, Bool, true, false, Option, [], ◌∷◌,
  arith, Bool-cases,
}
use bge_m3_embedding_server.AppError.{ok}
use bge_m3_embedding_server.Runtime.{Runtime}
use bge_m3_embedding_server.TrtWarmup.{Host}
use bge_m3_embedding_server.CacheGc.{SmiOutput}
use bge_m3_embedding_server.ModelFiles.{Hub}
use bge_m3_embedding_server.Session.{
  Build, Provider, GpuSessionConfig, Libraries, execution_providers, load_models,
}
use bge_m3_embedding_server.Session.Loading.{Registers, has_feature, IsFor, load_models-registered}
use bge_m3_embedding_server.Worker.Dispatch.{EpSelection, cpu, cuda, tensor_rt}
use bge_m3_embedding_server.Worker.Startup.{StartupConfig}
use bge_m3_embedding_server.Worker.Readiness.{startup_worker-loaded}
use bge_m3_embedding_server.Pool.Spawn.{
  PoolConfig, gpus, is_gpu, clamp_workers, make_worker_config, Surroundings, EmbedPool, spawn,
}
use bge_m3_embedding_server.Pool.Loading.{
  worker_ready, ready_prefix, ready_prefix-le, clamp_workers-gpus, spawned_pool-counts, spawn-eq-ok,
  make_worker_config-device_id,
}

-- The `GpuSessionConfig` that a worker builds of its configuration. `base` has the fields that all workers share.
unfoldable pub session_config : GpuSessionConfig → StartupConfig → GpuSessionConfig
session_config base wc = record base { ep = wc.ep; device_id = wc.device_id }

has_feature-is_gpu :
    (build : Build) (ep : EpSelection) → has_feature build ep ≡ true → is_gpu ep ≡ true
has_feature-is_gpu build cpu h = h
has_feature-is_gpu build cuda h = refl
has_feature-is_gpu build tensor_rt h = refl

module _ (rt : Runtime) (host : Host rt) where
  open rt use {Session, Tokenizer}

  unready :
      (around : Surroundings rt host) (config : PoolConfig) (n id more : ℕ)
      → worker_ready rt host around config n id ≡ false
      → ready_prefix rt host around config n id (suc more) ≡ 0
  unready around config n id more e = rw e refl

  -- Each worker before the first that is not ready is ready.
  ready_prefix-ready :
      (around : Surroundings rt host) (config : PoolConfig) (n id more k : ℕ)
      → k < ready_prefix rt host around config n id more
      → worker_ready rt host around config n (id + k) ≡ true
  ready_prefix-ready around config n id zero k h = absurd (omega arith)
  ready_prefix-ready around config n id (suc more) zero h =
      elim (Bool-cases (worker_ready rt host around config n id)) [
        | inr e ↦ absurd (omega (arith, h, unready around config n id more e))
        | inl e ↦ subst (λ i. worker_ready rt host around config n i ≡ true) (omega arith) e
      ]
  ready_prefix-ready around config n id (suc more) (suc k) h =
      elim (Bool-cases (worker_ready rt host around config n id)) [
        | inr e ↦ absurd (omega (arith, h, unready around config n id more e))
        | inl e ↦
            let one_more : ready_prefix rt host around config n id (suc more)
                ≡ suc (ready_prefix rt host around config n (suc id) more) =
              rw e refl in
            subst (λ i. worker_ready rt host around config n i ≡ true) (omega arith)
              (ready_prefix-ready around config n (suc id) more k (omega (arith, h, one_more)))
      ]

  module _ {Builder : Type 0} (libs : Libraries Builder Session Tokenizer) (hub : Hub)
      (build : Build) (base : GpuSessionConfig) (pre_load_rss : ℕ → Option ℕ)
      (nvidia_smi : ℕ → SmiOutput) where
    -- What the workers of a pool find, with the models that they load.
    abbrev pub loading : PoolConfig → ℕ → Surroundings rt host
    loading config n = record {
      load_models =
          λ id. load_models libs hub build (session_config base (make_worker_config config n id));
      pre_load_rss = pre_load_rss;
      nvidia_smi = nvidia_smi;
    }

    -- On Linux, in a build with the feature of the selected GPU, with fewer than 2^31 GPUs, each
    -- worker that a pool counts as loaded has the execution provider of that GPU alone, for the device with the
    -- worker's own number, and ONNX Runtime has registered it. It is assumed that ONNX Runtime fails where
    -- it cannot register a provider that is set up to do so.
    pub spawn-devices :
        (registered : Provider → Bool)
        → Registers libs registered
        → (config : PoolConfig) (requested id : ℕ) → gpus config < 2 ^ 31
        → build.macos ≡ false
        → has_feature build config.startup.ep ≡ true
        → (pool : EmbedPool rt host)
        → spawn rt host (loading config (clamp_workers requested config)) config requested ≡ ok pool
        → id < pool.loaded_workers
        → (p : Provider) × (execution_providers build
              (session_config base (make_worker_config config (clamp_workers requested config) id))
            ≡ p ∷ [])
          × (IsFor config.startup.ep id p.setup)
          × (registered p ≡ true)
    unfolding spawn session_config make_worker_config
    spawn-devices registered r config requested id devices system feature pool returned loaded =
        let n = clamp_workers requested config in
        let around = loading config n in
        let (fits_64, same) = spawn-eq-ok rt host around config requested pool returned in
        let counted = (spawned_pool-counts rt host around config n fits_64).0 in
        let counts_same = ap (λ (p : EmbedPool rt host). p.loaded_workers) same in
        let within : id < ready_prefix rt host around config n 0 n =
          omega (arith, loaded, counted, counts_same) in
        let below : id < n = omega (arith, within, ready_prefix-le rt host around config n 0 n) in
        let ready : worker_ready rt host around config n id ≡ true =
          subst (λ i. worker_ready rt host around config n i ≡ true) (omega arith)
            (ready_prefix-ready around config n 0 n id within) in
        let (s, t, models) =
          startup_worker-loaded rt host id (make_worker_config config n id) (around.load_models id)
            (pre_load_rss id) (nvidia_smi (make_worker_config config n id).device_id) 0 ready in
        let device : (make_worker_config config n id).device_id ≡ id =
          make_worker_config-device_id requested config id
            (has_feature-is_gpu build config.startup.ep feature) (omega (arith, devices)) below in
        let small : id < 2 ^ 31 = omega (
          arith,
          below,
          devices,
          clamp_workers-gpus requested config (has_feature-is_gpu build config.startup.ep feature),
        ) in
        let (p, only, fits, is_registered) =
          load_models-registered libs registered r hub build
            (session_config base (make_worker_config config n id)) s t
            (omega (arith, device, small)) system feature models in
        (p, only, subst (λ d. IsFor config.startup.ep d p.setup) device fits, is_registered)
