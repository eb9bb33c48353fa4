-- ===== src/Server/Exits.antt =====
-- src/lib.rs: what a server that is open has behind it, and how a warmup-only run ends.
use bge_m3_embedding_server.Prelude.{
  ℕ, ◌^◌, ◌<◌, ◌≡◌, refl, sym, ◌∙◌, inl, inr, Bool, true, false, not, arith, ltb, ==_iff, length,
  and_both, Bool-cases,
}
use bge_m3_embedding_server.Prelude.Floats.{F64, FitOps}
use bge_m3_embedding_server.AppError.{Result, ok, err, panic}
use bge_m3_embedding_server.Runtime.{Runtime}
use bge_m3_embedding_server.TrtWarmup.{Host, engine_files_for_sm}
use bge_m3_embedding_server.Worker.Dispatch.{EpSelection}
use bge_m3_embedding_server.Worker.Startup.{detected_sm_for_ep}
use bge_m3_embedding_server.Worker.Readiness.{Result-cases}
use bge_m3_embedding_server.Probe.Cache.{Json}
use bge_m3_embedding_server.Probe.Runner.{ProbePool}
use bge_m3_embedding_server.Pool.Spawn.{Surroundings, EmbedPool, clamp_workers, spawned_pool}
use bge_m3_embedding_server.Pool.Loading.{clamp_workers-le, spawned_pool-counts, spawn-spawned_pool}
use bge_m3_embedding_server.Bootstrap.Budget.{compute_workspace_budget}
use bge_m3_embedding_server.Bootstrap.Readiness.{physics_floor, run_readiness_probe}
use bge_m3_embedding_server.Bootstrap.Opening.{CanProbe, checks_pass, run_readiness_probe-opens}
use bge_m3_embedding_server.SysInfo.{detect_available_memory}
use bge_m3_embedding_server.Config.Lookup.{Config}
use bge_m3_embedding_server.Server.{
  Run, returns, exits, serves, System, warmup_postcondition_failed, warmup_only_run, pool_config,
  readiness_config, found_by, initial_state, serve_run, run,
}

-- The server serves, and does not refuse the embedding requests.
abbrev pub is_open : {f : F64} → Run f → Bool
is_open (returns r) = false
is_open (exits code) = false
is_open (serves state dir) = state.ready

negated : (b : Bool) → not b ≡ true → b ≡ false
negated true h = cc h
negated false h = refl

-- A warmup-only run never opens the gate.
warmup_only_run-closed :
    (f : F64) {S : Type 0} (ep : EpSelection) (system : System S) (init : Result (Unit {0}))
    → is_open (warmup_only_run {f = f} ep system init) ≡ false
unfolding warmup_only_run
warmup_only_run-closed f ep system panic = refl
warmup_only_run-closed f ep system (err e) = refl
warmup_only_run-closed f ep system (ok u) =
    elim (Bool-cases (
      warmup_postcondition_failed ep (
        length
          (engine_files_for_sm (detected_sm_for_ep ep system.nvidia_smi) system.engine_names)))) [
            | inl e ↦ rw (e, warmup_only_run) refl
            | inr e ↦ rw (e, warmup_only_run) refl
          ]

module _ (rt : Runtime) (host : Host rt) (ops : FitOps rt.floats) (json : Json rt.floats.Carrier)
    {S : Type 0} (probes : ProbePool S) where
  open rt use {floats}

  serve_run-open :
      (cfg : Config floats.Carrier) (system : System S) (pool : EmbedPool rt host)
      → is_open (serve_run rt host ops json probes cfg system pool) ≡ true
      → (run_readiness_probe floats ops json probes
          (readiness_config rt host ops json probes cfg system)
          (found_by rt host ops json probes system pool)
          (initial_state rt host ops json probes cfg)).1.0.ready
        ≡ true
  unfolding serve_run
  serve_run-open cfg system pool h =
      elim (Result-cases
        (run_readiness_probe floats ops json probes
          (readiness_config rt host ops json probes cfg system)
          (found_by rt host ops json probes system pool)
          (initial_state rt host ops json probes cfg)).0) [
            | inl e ↦ rw (e.1, serve_run) at h
            | inr (inl e) ↦ cc (rw (e.1, serve_run) at h)
            | inr (inr e) ↦ rw (e, serve_run) at h
          ]

  abbrev pub workspace_of : Config floats.Carrier → System S → EmbedPool rt host → ℕ
  workspace_of cfg system pool =
      (compute_workspace_budget floats (detect_available_memory system.machine).available_bytes
        cfg.workers pool.model_rss_per_worker_bytes cfg.memory_safety_factor).0

  -- The pool that `spawn` returns.
  abbrev pub pool_of : Surroundings rt host → Config floats.Carrier → EmbedPool rt host
  pool_of around cfg =
      spawned_pool rt host around (pool_config cfg) (clamp_workers cfg.workers (pool_config cfg))

  -- A run with fewer than 2^32 workers, and at least one, that finds a usable corpus, and bounds of the coefficients that are in order
  -- and not below themselves, serves with its gate open only if it is no warmup-only run, all workers that it has spawned have loaded
  -- their models, a worker has the memory for one text of the longest length, and both readiness checks have
  -- succeeded.
  pub run-open :
      (around : Surroundings rt host) (cfg : Config floats.Carrier) (system : System S)
      → 0 < cfg.workers
      → cfg.workers < 2 ^ 32
      → CanProbe floats ops json probes
          (found_by rt host ops json probes system (pool_of around cfg))
      → is_open (run rt host ops json probes around cfg system) ≡ true
      → let pool = pool_of around cfg in
        (cfg.warmup_only ≡ false)
        × (pool.loaded_workers ≡ pool.spawned_workers)
        × (ltb
              (workspace_of cfg system pool)
              (physics_floor floats ops json probes cfg.max_seq_length)
            ≡ false)
        × (checks_pass system.readiness ≡ true)
  unfolding run spawned_pool readiness_config found_by initial_state
  run-open around cfg system w b c h = elim (Bool-cases cfg.warmup_only) [
    | inl e ↦
        let spawned =
          spawn-spawned_pool rt host around (pool_config cfg) cfg.workers w (omega arith) in
        cc (
          simp (spawned, e, run) at h,
          warmup_only_run-closed floats cfg.ep system (pool_of around cfg).init,
        )
    | inr e ↦
        let pool = pool_of around cfg in
        let spawned =
          spawn-spawned_pool rt host around (pool_config cfg) cfg.workers w (omega arith) in
        let few = clamp_workers-le cfg.workers (pool_config cfg) in
        let fits : clamp_workers cfg.workers (pool_config cfg) < 2 ^ 64 = omega arith in
        let served : is_open (serve_run rt host ops json probes cfg system pool) ≡ true =
          simp (spawned, e, run) at h in
        let ready = serve_run-open cfg system pool served in
        let opens =
          run_readiness_probe-opens floats ops json probes
            (readiness_config rt host ops json probes cfg system)
            (found_by rt host ops json probes system pool)
            (initial_state rt host ops json probes cfg) refl refl w b c in
        let (allowed, checks) = and_both _ _ (sym opens.0 ∙ ready) in
        let (loaded, enough) = and_both _ _ allowed in
        let (counted, done) =
          spawned_pool-counts rt host around (pool_config cfg)
            (clamp_workers cfg.workers (pool_config cfg)) fits in
        (e, counted ∙ (==_iff _ _).0 (sym done ∙ loaded), negated _ enough, checks)
  ]
