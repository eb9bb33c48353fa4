-- ===== src/Bootstrap/Readiness.antt =====
-- src/bootstrap/readiness.rs, src/bootstrap/probe_task.rs and src/handler/health.rs: the cost model is
-- resolved, the readiness checks are made, and the server is opened.
use bge_m3_embedding_server.Prelude.{
  ℕ, ◌+◌, ◌-◌, ◌%◌, ◌^◌, max, min, Bool, true, not, ◌&&◌, Option, none, some, List, ◌++◌, ltb,
  if◌then◌else◌, Text, codes, decimal,
}
use bge_m3_embedding_server.Prelude.Floats.{F64, FitOps}
use bge_m3_embedding_server.AppError.{
  Error, Result, ok, err, panic, ◌>>=◌, map_err, anyhow, display,
}
use bge_m3_embedding_server.BinPack.{CostModel, conservative, chunk_cost}
use bge_m3_embedding_server.Handler.{
  ProbeStatus, disabled, probe_running, complete, probe_failed, cache_hit,
}
use bge_m3_embedding_server.Probe.Cache.{
  Json, Fingerprint, CacheDir, SaveOutcome, try_load_probe_cache, save_probe_cache,
}
use bge_m3_embedding_server.Probe.Runner.{ProbePool, run_probe}
use bge_m3_embedding_server.Bootstrap.Budget.{compute_workspace_budget}

module _ (f : F64) where
  open f use {Carrier}

  -- What the rest of the server sees of the startup: the atomics of `AppState`. `request_permits` is
  -- what is available of the semaphore.
  pub record ServerState : Type 0 where
    pub ready : Bool
    pub probe_status : ProbeStatus
    pub cost_model : CostModel Carrier
    pub request_permits : ℕ

-- `cfg.workers.saturating_sub(1).max(1)`
unfoldable pub initial_permits : ℕ → ℕ
initial_permits workers = max (workers - 1) 1

-- The readiness calls of the pool, in the order in which they are made.
pub record Readiness : Type 0 where
  pub dense : Result Bool
  pub sparse : Result Bool

abbrev pub prefix_err : Text → Error → Error
prefix_err msg e = anyhow (msg ++ display e)

unfoldable pub run_readiness_checks_and_open :
    {f : F64} → Readiness → ServerState f → Result Bool × ServerState f
run_readiness_checks_and_open calls state =
    let checked : Result Bool =
      map_err (prefix_err (codes "Dense readiness probe failed: ")) calls.dense >>= λ d.
      map_err (prefix_err (codes "Sparse readiness probe failed: ")) calls.sparse in
    elim checked [
      | ok s ↦ (ok true, record state { ready = true })
      | err e ↦ (err e, state)
      | panic ↦ (panic, state)
    ]

-- What the startup finds: the end of the pool's init task, the memory, the files, and the replies of
-- the workers.
pub record Found (f : F64) (S : Type 0) : Type 0 where
  pub init : Result (Unit {0})
  pub available_bytes : ℕ
  pub model_rss_per_worker : ℕ
  pub cache_dir : CacheDir
  pub save : SaveOutcome
  pub now : ℕ
  pub corpus_file : List Text
  pub readiness : Readiness
  pub pool_state : S

-- What of the configuration the startup reads.
pub record ReadinessConfig (f : F64) : Type 0 where
  pub workers : ℕ
  pub safety : f.Carrier
  pub cost_model_override : Option (CostModel f.Carrier)
  pub fingerprint : Fingerprint
  pub disable_probe_cache : Bool

module _ (f : F64) (ops : FitOps f) (json : Json f.Carrier) {S : Type 0} (pool : ProbePool S) where
  open f use {Carrier, of_ℕ}
  open ops use {sub, abs, lt, ratio}

  -- `(x - y).abs() < f64::EPSILON`, which is 2^-52.
  abbrev is_close : Carrier → Carrier → Bool
  is_close x y = lt (abs (sub x y)) (ratio 1 (2 ^ 52))

  -- The coefficients are the conservative ones, which tells that the probe failed.
  abbrev pub is_fallback : Carrier × Carrier → Bool
  is_fallback (a, b) = is_close a (of_ℕ 16384) && is_close b (of_ℕ 8)

  abbrev pub fitted_model : ℕ → Carrier × Carrier → CostModel Carrier
  fitted_model workspace (a, b) = record { a = a; b = b; max_workspace_bytes = workspace }

  -- The background task, whose permits are `request_permits` on entry. A panic ends it, before the
  -- permits are given back.
  unfoldable pub finish_probe :
      ReadinessConfig f
      → Found f S
      → Bool
      → ℕ
      → Result ((Carrier × Carrier) × S)
      → ServerState f
      → ServerState f × CacheDir
  unfolding run_readiness_checks_and_open
  finish_probe config found save_cache workspace (ok (ab, s)) state =
      let status : ProbeStatus = if is_fallback ab then probe_failed else complete in
      let dir =
        if not (is_fallback ab) && save_cache
        then save_probe_cache f ops json found.save config.fingerprint found.now ab.0 ab.1
            found.cache_dir
        else found.cache_dir in
      let fitted : ServerState f = record state {
        cost_model = fitted_model workspace ab;
        probe_status = status;
      } in
      let opened = (run_readiness_checks_and_open found.readiness fitted).1 in
      (record opened { request_permits = opened.request_permits + config.workers }, dir)
  finish_probe config found save_cache workspace (err e) state = (state, found.cache_dir)
  finish_probe config found save_cache workspace panic state = (state, found.cache_dir)

  -- `u32::try_from(n).unwrap_or(u32::MAX)`
  abbrev to_u32_saturating : ℕ → ℕ
  to_u32_saturating n = min n (2 ^ 32 - 1)

  -- All permits but the reserved one are taken and forgotten, and the probe is run. The wait for the
  -- permits has ended, so there are as many.
  unfoldable pub spawn_probe_task :
      ReadinessConfig f → Found f S → Bool → ℕ → ServerState f → ServerState f × CacheDir
  unfolding finish_probe
  spawn_probe_task config found save_cache workspace state =
      let drained : ServerState f = record state {
        probe_status = probe_running;
        request_permits = state.request_permits - to_u32_saturating (config.workers - 1);
      } in
      finish_probe config found save_cache workspace
        (run_probe f ops pool found.corpus_file config.fingerprint.max_seq workspace
          found.available_bytes found.pool_state)
        drained

  -- The override, and the coefficients of the cache, are followed by the readiness checks.
  unfoldable pub adopt :
      CostModel Carrier
      → ProbeStatus
      → Found f S
      → ServerState f
      → Result Bool × (ServerState f × CacheDir)
  unfolding run_readiness_checks_and_open
  adopt cm status found state =
      let (r, s) =
        run_readiness_checks_and_open found.readiness
          (record state { cost_model = cm; probe_status = status }) in
      (r, (s, found.cache_dir))

  -- The cached coefficients, unless the cache is disabled.
  unfoldable pub cached_fit : ReadinessConfig f → Found f S → Option (Carrier × Carrier)
  cached_fit config found =
      if config.disable_probe_cache
      then none
      else try_load_probe_cache f ops json found.cache_dir config.fingerprint

  unfoldable pub resolve_cost_model :
      ReadinessConfig f → Found f S → ℕ → ServerState f → Result Bool × (ServerState f × CacheDir)
  unfolding adopt cached_fit spawn_probe_task
  resolve_cost_model config found workspace state = elim config.cost_model_override [
    | some cm ↦ adopt cm disabled found state
    | none ↦ elim (cached_fit config found) [
      | some ab ↦ adopt (fitted_model workspace ab) cache_hit found state
      | none ↦
          (ok true, spawn_probe_task config found (not config.disable_probe_cache) workspace state)
    ]
  ]

  -- `CostModel::conservative(0).chunk_cost(1, cfg_max_seq) as usize`
  unfoldable pub physics_floor : ℕ → ℕ
  physics_floor max_seq = chunk_cost f (conservative f 0) 1 max_seq % 2 ^ 64

  -- The text of the error names the byte counts of the budget; here it has the two that decide.
  unfoldable pub below_floor : ℕ → ℕ → Error
  below_floor workspace floor = anyhow (
      codes "Computed per_worker_workspace ("
      ++ (decimal workspace
          ++ (codes " B) is below the physics-based minimum (" ++ (decimal floor ++ codes " B)"))))

  unfoldable pub run_readiness_probe :
      ReadinessConfig f → Found f S → ServerState f → Result Bool × (ServerState f × CacheDir)
  unfolding resolve_cost_model physics_floor below_floor
  run_readiness_probe config found state =
      let workspace =
        (compute_workspace_budget f found.available_bytes config.workers found.model_rss_per_worker
          config.safety).0 in
      let floor = physics_floor config.fingerprint.max_seq in
      elim found.init [
        | err e ↦ (
          err (prefix_err (codes "Worker pool initialization failed: ") e),
          (state, found.cache_dir),
        )
        | panic ↦ (err (anyhow (codes "Worker pool task panicked")), (state, found.cache_dir))
        | ok u ↦
            if ltb workspace floor
            then (err (below_floor workspace floor), (state, found.cache_dir))
            else resolve_cost_model config found workspace state
      ]
