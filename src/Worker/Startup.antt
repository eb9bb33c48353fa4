-- ===== src/Worker/Startup.antt =====
-- src/embedder/worker/startup.rs, worker/prewarm_strict.rs and trt_warmup/postcondition.rs: a worker
-- loads its models, warms TensorRT up, and signals that it is ready.
use bge_m3_embedding_server.Prelude.{
  ℕ, ◌-◌, max, Bool, true, false, not, ◌&&◌, ◌||◌, Option, none, some, List, ◌++◌, ltb, ◌==◌,
  if◌then◌else◌, is_empty, replicate, Text, codes, decimal,
}
use bge_m3_embedding_server.AppError.{Error, Result, ok, err, panic, anyhow, display}
use bge_m3_embedding_server.Runtime.{Runtime, Array2}
use bge_m3_embedding_server.TrtWarmup.{
  Shape, Host, PrewarmStats, trt_prewarm, prewarm_panics, is_panic, probe_run_dense, unwrap_or,
}
use bge_m3_embedding_server.CacheGc.{SmiOutput, detect_sm_for_device}
use bge_m3_embedding_server.Worker.Dispatch.{EpSelection, cpu, cuda, tensor_rt, is_tensor_rt}

-- What `WorkerConfig` says of the startup.
pub record StartupConfig : Type 0 where
  pub ep : EpSelection
  pub device_id : ℕ
  pub trt_warmup_shapes : List Shape
  pub prewarm_strict : Bool
  pub trt_cache_gc_enabled : Bool

unfoldable pub prewarm_persistence_postcondition_failed : ℕ → ℕ → Bool
prewarm_persistence_postcondition_failed fresh_compiles engine_count_after =
    ltb 0 fresh_compiles && (engine_count_after == 0)

-- `SUSPICIOUS_UNDERCOUNT_MIN_FRESH`
abbrev pub suspicious_undercount_min_fresh : ℕ
suspicious_undercount_min_fresh = 2

unfoldable pub prewarm_persistence_suspicious_undercount : ℕ → ℕ → Bool
unfolding prewarm_persistence_postcondition_failed
prewarm_persistence_suspicious_undercount fresh_compiles engine_count_after =
    if ltb 0 engine_count_after
    then false
    else if prewarm_persistence_postcondition_failed fresh_compiles engine_count_after
    then false
    else if ltb fresh_compiles suspicious_undercount_min_fresh
    then false
    else false

unfoldable pub should_fail_readiness : ℕ → ℕ → Bool → Bool
unfolding prewarm_persistence_postcondition_failed prewarm_persistence_suspicious_undercount
should_fail_readiness fresh_compiles engine_count_after strict =
    if not strict
    then false
    else prewarm_persistence_postcondition_failed fresh_compiles engine_count_after
      || prewarm_persistence_suspicious_undercount fresh_compiles engine_count_after

unfoldable pub detected_sm_for_ep : EpSelection → SmiOutput → Option Text
unfolding detect_sm_for_device
detected_sm_for_ep cpu smi = none
detected_sm_for_ep cuda smi = none
detected_sm_for_ep tensor_rt smi = detect_sm_for_device smi

abbrev is_cpu : EpSelection → Bool
is_cpu cpu = true
is_cpu cuda = false
is_cpu tensor_rt = false

-- The capability for which the leader collects the cache, in a build with the feature `cache-gc`.
unfoldable pub gc_target : ℕ → StartupConfig → SmiOutput → Option Text
unfolding detect_sm_for_device
gc_target id config smi =
    if (id == 0) && (config.trt_cache_gc_enabled && not (is_cpu config.ep))
    then detect_sm_for_device smi
    else none

module _ (rt : Runtime) (host : Host rt) where
  open rt use {Session, Tokenizer}

  pub record StartupOutcome : Type 0 where
    pub initial_models : Session × Tokenizer
    pub detected_sm : Option Text

  -- What a startup does: the signal that it sends, if it sends one, what it returns, and the ceiling
  -- of the warmed lengths, which all workers share.
  pub record Startup : Type 0 where
    pub signal : Option (Result ℕ)
    pub outcome : Result StartupOutcome
    pub warmed_seq_ceiling : ℕ

  -- The run that primes the arena, whose error is dropped.
  unfoldable pub prime_arena : Session → Session
  prime_arena s =
      let ids : Array2 = record { rows = 1; cols = 8; flat = replicate 8 0 } in
      let mask : Array2 = record { rows = 1; cols = 8; flat = replicate 8 1 } in
      (probe_run_dense rt host s ids mask).1

  -- Whether it panics.
  unfoldable pub prime_panics : Session → Bool
  unfolding probe_run_dense
  prime_panics s =
      let ids : Array2 = record { rows = 1; cols = 8; flat = replicate 8 0 } in
      let mask : Array2 = record { rows = 1; cols = 8; flat = replicate 8 1 } in
      is_panic (probe_run_dense rt host s ids mask).0.0

  unfoldable pub load_failure : ℕ → Error → Error
  load_failure id e =
      anyhow (codes "Worker " ++ (decimal id ++ (codes " failed to load: " ++ display e)))

  unfoldable pub strict_failure : ℕ → PrewarmStats → Error
  strict_failure id stats = anyhow (
      codes "Worker "
      ++ (decimal id
          ++ (codes " prewarm postcondition failed (fresh_compiles="
              ++ (decimal stats.fresh_compiles
                  ++ (codes ", engine_count_after="
                      ++ (decimal stats.engine_count_after
                          ++ codes "); prewarm_strict=1: refusing to signal ready"))))))

  -- The delta of the resident memory is sent; what is left of the startup cannot fail.
  unfoldable pub signal_ready : ℕ → Session → Tokenizer → Option Text → ℕ → Startup
  signal_ready pre_load_rss s tokenizer sm ceiling =
      let post_load_rss = unwrap_or (host.read_process_rss_bytes s) pre_load_rss in
      record {
        signal = some (ok (post_load_rss - pre_load_rss));
        outcome = ok (record { initial_models = (s, tokenizer); detected_sm = sm });
        warmed_seq_ceiling = ceiling;
      }

  unfoldable pub after_prewarm :
      ℕ → StartupConfig → ℕ → Tokenizer → Option Text → ℕ → PrewarmStats × Session → Startup
  unfolding should_fail_readiness strict_failure signal_ready
  after_prewarm id config pre_load_rss tokenizer sm ceiling (stats, s) =
      let raised = max ceiling stats.max_warmed_seq in
      if should_fail_readiness stats.fresh_compiles stats.engine_count_after config.prewarm_strict
      then record {
        signal = none;
        outcome = err (strict_failure id stats);
        warmed_seq_ceiling = raised;
      }
      else signal_ready pre_load_rss s tokenizer sm raised

  -- The thread panics and sends no signal.
  abbrev pub unwinds : ℕ → Startup
  unwinds ceiling = record { signal = none; outcome = panic; warmed_seq_ceiling = ceiling }

  -- What `load_models` gives and the memory before it, what `nvidia-smi` does, and the ceiling.
  unfoldable pub startup_worker :
      ℕ → StartupConfig → Result (Session × Tokenizer) → Option ℕ → SmiOutput → ℕ → Startup
  unfolding load_failure prime_arena prime_panics prewarm_panics detected_sm_for_ep after_prewarm
      signal_ready
  startup_worker id config panic pre smi ceiling = unwinds ceiling
  startup_worker id config (err e) pre smi ceiling = record {
    signal = some (err (load_failure id e));
    outcome = err e;
    warmed_seq_ceiling = ceiling;
  }
  startup_worker id config (ok (session, tokenizer)) pre smi ceiling =
      let pre_load_rss = unwrap_or pre 0 in
      let s = prime_arena session in
      let sm = detected_sm_for_ep config.ep smi in
      let warms = is_tensor_rt config.ep && not (is_empty config.trt_warmup_shapes) in
      if prime_panics session || (warms && prewarm_panics rt host config.trt_warmup_shapes sm s)
      then unwinds ceiling
      else if warms
      then after_prewarm id config pre_load_rss tokenizer sm ceiling
          (trt_prewarm rt host config.trt_warmup_shapes sm s)
      else signal_ready pre_load_rss s tokenizer sm ceiling
