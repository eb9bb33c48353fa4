-- ===== src/Worker/Readiness.antt =====
-- src/embedder/worker/startup.rs and worker/prewarm_strict.rs: when a worker signals that it is ready.
use bge_m3_embedding_server.Prelude.{
  ℕ, ◌≡◌, refl, ap, sym, ◌∙◌, ◌⊎◌, inl, inr, Bool, true, false, not, ◌&&◌, ◌||◌, Option, none, some,
  arith, ltb, ◌==◌, is_empty, Text, Bool-cases,
}
use bge_m3_embedding_server.AppError.{Error, Result, ok, err, panic}
use bge_m3_embedding_server.Runtime.{Runtime}
use bge_m3_embedding_server.TrtWarmup.{Host, PrewarmStats, trt_prewarm, prewarm_panics}
use bge_m3_embedding_server.CacheGc.{SmiOutput}
use bge_m3_embedding_server.Worker.Dispatch.{is_tensor_rt}
use bge_m3_embedding_server.Worker.Startup.{
  StartupConfig, prewarm_persistence_postcondition_failed,
  prewarm_persistence_suspicious_undercount, should_fail_readiness, prime_arena, prime_panics,
  detected_sm_for_ep, signal_ready, after_prewarm, startup_worker,
}

abbrev pub is_ready : Option (Result ℕ) → Bool
is_ready (some (ok delta)) = true
is_ready (some (err e)) = false
is_ready (some panic) = false
is_ready none = false

abbrev pub is_ok {ℓ} : {A : Type ℓ} → Result A → Bool
is_ok (ok a) = true
is_ok (err e) = false
is_ok panic = false

pub Result-cases :
    {A : Type 0} (r : Result A)
    → ((a : A) × (r ≡ ok a)) ⊎ (((e : Error) × (r ≡ err e)) ⊎ (r ≡ panic))
Result-cases (ok a) = inl (a, refl)
Result-cases (err e) = inr (inl (e, refl))
Result-cases panic = inr (inr refl)

-- The undercount never adds to the postcondition: a strict warmup fails readiness exactly if it
-- compiled an engine, and the cache holds none for the GPU.
pub should_fail_readiness_lem :
    (fresh_compiles engine_count_after : ℕ) (strict : Bool)
    → should_fail_readiness fresh_compiles engine_count_after strict
      ≡ (strict && (ltb 0 fresh_compiles && (engine_count_after == 0)))
unfolding should_fail_readiness prewarm_persistence_suspicious_undercount
    prewarm_persistence_postcondition_failed
should_fail_readiness_lem fresh after false = refl
should_fail_readiness_lem fresh after true = ground arith

module _ (rt : Runtime) (host : Host rt) where
  open rt use {Session, Tokenizer}

  -- The statistics of the warmup of a worker, from the session that `load_models` gives.
  abbrev pub stats_of : StartupConfig → SmiOutput → Session → PrewarmStats
  stats_of config smi session =
      (trt_prewarm rt host config.trt_warmup_shapes (detected_sm_for_ep config.ep smi)
        (prime_arena rt host session)).0

  -- The run that primes the arena panics, or a run of the warmup.
  abbrev pub crashes : StartupConfig → SmiOutput → Session → Bool
  crashes config smi session =
      prime_panics rt host session
      || ((is_tensor_rt config.ep && not (is_empty config.trt_warmup_shapes))
          && prewarm_panics rt host config.trt_warmup_shapes (detected_sm_for_ep config.ep smi)
              (prime_arena rt host session))

  -- The warmup was strict, and nothing that it compiled is in the cache.
  abbrev pub is_refused : StartupConfig → SmiOutput → Session → Bool
  is_refused config smi session =
      (is_tensor_rt config.ep && not (is_empty config.trt_warmup_shapes))
      && (config.prewarm_strict
          && (ltb 0 (stats_of config smi session).fresh_compiles
              && ((stats_of config smi session).engine_count_after == 0)))

  after_prewarm-decides :
      (id : ℕ) (config : StartupConfig) (pre : ℕ) (tokenizer : Tokenizer) (sm : Option Text)
      (ceiling : ℕ) (p : PrewarmStats × Session)
      → let st = after_prewarm rt host id config pre tokenizer sm ceiling p in
        let refused =
          config.prewarm_strict && (ltb 0 p.0.fresh_compiles && (p.0.engine_count_after == 0)) in
        (is_ready st.signal ≡ not refused) × (is_ok st.outcome ≡ not refused)
  unfolding after_prewarm signal_ready
  after_prewarm-decides id config pre tokenizer sm ceiling (stats, s) =
      let same =
        should_fail_readiness_lem stats.fresh_compiles stats.engine_count_after
          config.prewarm_strict in
      elim (Bool-cases (
        should_fail_readiness stats.fresh_compiles stats.engine_count_after
          config.prewarm_strict)) [
            | inl e ↦ rw (e, after_prewarm) (ap not (sym e ∙ same), ap not (sym e ∙ same))
            | inr e ↦
                rw (e, after_prewarm, signal_ready) (ap not (sym e ∙ same), ap not (sym e ∙ same))
          ]

  -- A worker with its models signals that it is ready, and goes on to its request loop, exactly if neither the run that primes the
  -- arena nor a run of the TensorRT warmup panics, and it has not warmed TensorRT up
  -- in strict mode, with a compile, and without an engine in the cache afterwards.
  pub startup_worker-decides :
      (id : ℕ) (config : StartupConfig) (session : Session) (tokenizer : Tokenizer) (pre : Option ℕ)
      (smi : SmiOutput) (ceiling : ℕ)
      → let st = startup_worker rt host id config (ok (session, tokenizer)) pre smi ceiling in
        let stops = crashes config smi session || is_refused config smi session in
        (is_ready st.signal ≡ not stops) × (is_ok st.outcome ≡ not stops)
  unfolding startup_worker after_prewarm signal_ready
  startup_worker-decides id config session tokenizer pre smi ceiling =
      elim (Bool-cases (crashes config smi session)) [
        | inl c ↦ rw (c, startup_worker) (refl, refl)
        | inr c ↦
            elim (Bool-cases (is_tensor_rt config.ep && not (is_empty config.trt_warmup_shapes))) [
              | inl e ↦
                  rw (c, e, startup_worker)
                    (after_prewarm-decides id config _ tokenizer (detected_sm_for_ep config.ep smi)
                      ceiling
                      (trt_prewarm rt host config.trt_warmup_shapes
                        (detected_sm_for_ep config.ep smi) (prime_arena rt host session)))
              | inr e ↦ rw (c, e, startup_worker, signal_ready) (refl, refl)
            ]
      ]

  -- The ceiling has no part in the signal.
  pub startup_worker-ceiling :
      (id : ℕ) (config : StartupConfig) (loaded : Result (Session × Tokenizer)) (pre : Option ℕ)
      (smi : SmiOutput) (c d : ℕ)
      → is_ready (startup_worker rt host id config loaded pre smi c).signal
        ≡ is_ready (startup_worker rt host id config loaded pre smi d).signal
  unfolding startup_worker
  startup_worker-ceiling id config (ok (session, tokenizer)) pre smi c d =
      (startup_worker-decides id config session tokenizer pre smi c).0
      ∙ sym ((startup_worker-decides id config session tokenizer pre smi d).0)
  startup_worker-ceiling id config (err e) pre smi c d = refl
  startup_worker-ceiling id config panic pre smi c d = refl

  -- A worker that is ready has loaded its models.
  pub startup_worker-loaded :
      (id : ℕ) (config : StartupConfig) (loaded : Result (Session × Tokenizer)) (pre : Option ℕ)
      (smi : SmiOutput) (ceiling : ℕ)
      → is_ready (startup_worker rt host id config loaded pre smi ceiling).signal ≡ true
      → (s : Session) × (t : Tokenizer) × (loaded ≡ ok (s, t))
  unfolding startup_worker
  startup_worker-loaded id config (ok (s, t)) pre smi ceiling h = (s, t, refl)
  startup_worker-loaded id config (err e) pre smi ceiling h = cc h
  startup_worker-loaded id config panic pre smi ceiling h = cc h
