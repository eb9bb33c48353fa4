-- ===== src/Bootstrap/Opening.antt =====
-- src/bootstrap/readiness.rs and src/bootstrap/probe_task.rs: when the server opens, and with how
-- many permits.
use bge_m3_embedding_server.Prelude.{
  ℕ, ◌+◌, ◌-◌, ◌^◌, ◌<◌, min, ◌≡◌, refl, ap, ◌∙◌, inl, inr, Bool, true, false, not, ◌&&◌, none,
  some, arith, ltb, ◌==◌, if◌then◌else◌, All, Bool-cases, Option-cases,
}
use bge_m3_embedding_server.Prelude.Floats.{F64, FitOps, IsRange}
use bge_m3_embedding_server.AppError.{Result, ok, err, panic}
use bge_m3_embedding_server.BinPack.{CostModel}
use bge_m3_embedding_server.Handler.{ProbeStatus, disabled, cache_hit, probe_running}
use bge_m3_embedding_server.Probe.Cache.{Json}
use bge_m3_embedding_server.Probe.Corpus.{IsUsable}
use bge_m3_embedding_server.Probe.Fit.{min_a, max_a, min_b, max_b}
use bge_m3_embedding_server.Probe.Runner.{ProbePool, conclude}
use bge_m3_embedding_server.Probe.Sweep.{run_probe-IsOutcome}
use bge_m3_embedding_server.Worker.Readiness.{is_ok, Result-cases}
use bge_m3_embedding_server.Bootstrap.Budget.{compute_workspace_budget}
use bge_m3_embedding_server.Bootstrap.Readiness.{
  ServerState, initial_permits, Readiness, run_readiness_checks_and_open, Found, ReadinessConfig,
  finish_probe, spawn_probe_task, adopt, resolve_cost_model, cached_fit, fitted_model,
  physics_floor, run_readiness_probe,
}

abbrev pub checks_pass : Readiness → Bool
checks_pass calls = is_ok calls.dense && is_ok calls.sparse

open_ready :
    {f : F64} (calls : Readiness) (state : ServerState f)
    → state.ready ≡ false
    → ((run_readiness_checks_and_open calls state).1.ready ≡ checks_pass calls)
      × ((run_readiness_checks_and_open calls state).1.request_permits ≡ state.request_permits)
unfolding run_readiness_checks_and_open
open_ready calls state h = go calls.dense calls.sparse
  where
    go :
        (d s : Result Bool)
        → ((run_readiness_checks_and_open (record { dense = d; sparse = s }) state).1.ready
            ≡ is_ok d && is_ok s)
          × ((run_readiness_checks_and_open
                (record { dense = d; sparse = s })
                state).1.request_permits
              ≡ state.request_permits)
    go (ok d) (ok s) = (refl, refl)
    go (ok d) (err e) = (h, refl)
    go (ok d) panic = (h, refl)
    go (err e) s = (h, refl)
    go panic s = (h, refl)

probed_permits :
    (workers permits : ℕ)
    → permits ≡ initial_permits workers
    → 0 < workers
    → workers < 2 ^ 32
    → (permits - min (workers - 1) (2 ^ 32 - 1)) + workers ≡ (if workers == 1 then 2 else workers)
unfolding initial_permits
probed_permits workers permits p w b = ground arith

module _ (f : F64) (ops : FitOps f) (json : Json f.Carrier) {S : Type 0} (pool : ProbePool S) where
  open f use {Carrier}

  adopt-ready :
      (cm : CostModel Carrier) (status : ProbeStatus) (found : Found f S) (state : ServerState f)
      → state.ready ≡ false
      → let r = adopt f ops json pool cm status found state in
        (r.1.0.ready ≡ checks_pass found.readiness)
        × (r.1.0.request_permits ≡ state.request_permits)
  unfolding adopt
  adopt-ready cm status found state h =
      open_ready found.readiness (record state { cost_model = cm; probe_status = status }) h

  finish_probe-ready :
      (config : ReadinessConfig f) (found : Found f S) (save_cache : Bool) (workspace : ℕ)
      (r : (Carrier × Carrier) × S) (state : ServerState f)
      → state.ready ≡ false
      → let end = finish_probe f ops json pool config found save_cache workspace (ok r) state in
        (end.0.ready ≡ checks_pass found.readiness)
        × (end.0.request_permits ≡ state.request_permits + config.workers)
  unfolding finish_probe
  finish_probe-ready config found save_cache workspace (ab, s) state h =
      let (ready, permits) =
        open_ready found.readiness (record state { cost_model = _; probe_status = _ }) h in
      (ready, ap (λ n. n + config.workers) permits)

  -- The corpus of the probe can be used, and the bounds of the coefficients are in order.
  abbrev pub CanProbe : Found f S → Type 0
  CanProbe found =
      All IsUsable found.corpus_file
      × IsRange ops (min_a f ops) (max_a f ops)
      × IsRange ops (min_b f ops) (max_b f ops)

  spawn_probe_task-ready :
      (config : ReadinessConfig f) (found : Found f S) (save_cache : Bool) (workspace : ℕ)
      (state : ServerState f)
      → state.ready ≡ false
      → CanProbe found
      → let end = spawn_probe_task f ops json pool config found save_cache workspace state in
        (end.0.ready ≡ checks_pass found.readiness)
        × (end.0.request_permits
            ≡ (state.request_permits - min (config.workers - 1) (2 ^ 32 - 1)) + config.workers)
  unfolding spawn_probe_task
  spawn_probe_task-ready config found save_cache workspace state h (u, ra, rb) =
      let (points, s', runs, guarded, outcome) =
        run_probe-IsOutcome f ops pool found.corpus_file config.fingerprint.max_seq workspace
          found.available_bytes found.pool_state u ra rb in
      rw (runs, spawn_probe_task)
        (finish_probe-ready config found save_cache workspace (conclude f ops pool points, s')
          (record state {
            probe_status = probe_running;
            request_permits = state.request_permits - min (config.workers - 1) (2 ^ 32 - 1);
          })
          h)

  -- What a terminal status leaves of the permits: none are added without a probe.
  abbrev pub permits_after : ReadinessConfig f → Bool → ℕ
  permits_after config probed =
      if probed
      then (if config.workers == 1 then 2 else config.workers)
      else initial_permits config.workers

  -- The probe is run if there is neither an override nor a cached fit.
  abbrev pub is_probed : ReadinessConfig f → Found f S → Bool
  is_probed config found = elim config.cost_model_override [
    | some cm ↦ false
    | none ↦ elim (cached_fit f ops json pool config found) [ some ab ↦ false | none ↦ true ]
  ]

  resolve_cost_model-ready :
      (config : ReadinessConfig f) (found : Found f S) (workspace : ℕ) (state : ServerState f)
      → state.ready ≡ false
      → state.request_permits ≡ initial_permits config.workers
      → 0 < config.workers
      → config.workers < 2 ^ 32
      → CanProbe found
      → let r = resolve_cost_model f ops json pool config found workspace state in
        (r.1.0.ready ≡ checks_pass found.readiness)
        × (r.1.0.request_permits ≡ permits_after config (is_probed config found))
  unfolding resolve_cost_model initial_permits
  resolve_cost_model-ready config found workspace state h p w b c =
      elim (Option-cases config.cost_model_override) [
        | inr e ↦
            let (ready, permits) = adopt-ready e.0 disabled found state h in
            simp (e.1, resolve_cost_model, is_probed) (ready, permits ∙ p)
        | inl e ↦ elim (Option-cases (cached_fit f ops json pool config found)) [
          | inr g ↦
              let cm = fitted_model f ops json pool workspace g.0 in
              let (ready, permits) = adopt-ready cm cache_hit found state h in
              simp (e, g.1, resolve_cost_model, is_probed) (ready, permits ∙ p)
          | inl g ↦
              let save_cache = not config.disable_probe_cache in
              let (ready, permits) =
                spawn_probe_task-ready config found save_cache workspace state h c in
              simp (e, g, resolve_cost_model, is_probed)
                (ready, permits ∙ probed_permits config.workers state.request_permits p w b)
        ]
      ]

  -- The server starts closed, with the initial permits, with fewer than 2^32 workers, and at least one. If the corpus
  -- of the probe is usable, and the bounds of the coefficients are in order and not below themselves, then the startup opens the server exactly
  -- if the workers are loaded, a worker has the memory for one text of the longest length, and both readiness
  -- checks succeed. If they do but for these checks, the permits that are left are all the initial
  -- ones without a probe, one for each worker with a probe, and two with a probe and a single worker.
  pub run_readiness_probe-opens :
      (config : ReadinessConfig f) (found : Found f S) (state : ServerState f)
      → state.ready ≡ false
      → state.request_permits ≡ initial_permits config.workers
      → 0 < config.workers
      → config.workers < 2 ^ 32
      → CanProbe found
      → let workspace =
          (compute_workspace_budget f found.available_bytes config.workers
            found.model_rss_per_worker config.safety).0 in
        let allowed =
          is_ok found.init
          && not (ltb workspace (physics_floor f ops json pool config.fingerprint.max_seq)) in
        let r = run_readiness_probe f ops json pool config found state in
        (r.1.0.ready ≡ (allowed && checks_pass found.readiness))
        × (r.1.0.request_permits ≡ (
            if allowed
            then permits_after config (is_probed config found)
            else initial_permits config.workers))
  unfolding run_readiness_probe
  run_readiness_probe-opens config found state h p w b c =
      let workspace =
        (compute_workspace_budget f found.available_bytes config.workers found.model_rss_per_worker
          config.safety).0 in
      let floor = physics_floor f ops json pool config.fingerprint.max_seq in
      elim (Result-cases found.init) [
        | inl e ↦ elim (Bool-cases (ltb workspace floor)) [
          | inl g ↦ simp (e.1, g, run_readiness_probe) (h, p)
          | inr g ↦
              simp (e.1, g, run_readiness_probe)
                (resolve_cost_model-ready config found workspace state h p w b c)
        ]
        | inr (inl e) ↦ simp (e.1, run_readiness_probe) (h, p)
        | inr (inr e) ↦ simp (e, run_readiness_probe) (h, p)
      ]
