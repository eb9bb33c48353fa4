-- ===== src/Handler/Health.antt =====
-- src/handler/health.rs, and `TuningInfo` of src/state.rs: what the health routes answer.
use bge_m3_embedding_server.Prelude.{
  ℕ, ◌<◌, ◌≡◌, refl, sym, ap, inl, inr, Bool, true, false, not, ◌&&◌, Option, none, some, arith,
  ltb, leb, ◌==◌, ◌∙◌, lt→ltb, if◌then◌else◌, Text, codes, Bool-cases,
}
use bge_m3_embedding_server.AppError.{Result, ok, err, panic, display}
use bge_m3_embedding_server.BinPack.{CostModel}
use bge_m3_embedding_server.Handler.{ProbeStatus, as_str}
use bge_m3_embedding_server.Pool.Spawn.{PoolConfig, gpus, is_gpu, clamp_workers}

-- `TuningInfo`, without the fields that only the log shows.
pub record TuningInfo : Type 0 where
  pub memory_source : Text
  pub available_bytes : ℕ
  pub model_rss_bytes_per_worker : ℕ

pub record Tuning (F : Type 0) : Type 0 where
  pub cost_model : CostModel F
  pub probe_status : Text
  pub memory : Option TuningInfo

-- The JSON of the answer: the status, and what goes with it.
pub data HealthBody (F : Type 0) : Type 0 where
  status_only : (status : Text) → HealthBody F
  with_workers : (status : Text) (live total : ℕ) → HealthBody F
  serving : (status : Text) (live total max_seq_length : ℕ) → Tuning F → HealthBody F

pub record HealthResponse (F : Type 0) : Type 0 where
  pub status_code : ℕ
  pub body : HealthBody F

-- What the route reads of the state and the pool.
pub record HealthState (F : Type 0) : Type 0 where
  pub ready : Bool
  pub live : ℕ
  pub loaded : ℕ
  pub total_workers : ℕ
  pub max_seq_length : ℕ
  pub cost_model : CostModel F
  pub probe_status : ProbeStatus
  pub tuning : Option TuningInfo

unfoldable pub health : {F : Type 0} → HealthState F → HealthResponse F
health s =
    if not s.ready
    then (record { status_code = 503; body = status_only (codes "loading") })
    else if s.live == 0
    then (record { status_code = 503; body = with_workers (codes "fail") s.live s.total_workers })
    else if s.loaded == 0
    then (record { status_code = 200; body = with_workers (codes "idle") s.live s.total_workers })
    else record {
      status_code = 200;
      body =
          serving (if ltb s.live s.total_workers then codes "warn" else codes "ok") s.live
            s.total_workers s.max_seq_length
            (record {
              cost_model = s.cost_model;
              probe_status = as_str s.probe_status;
              memory = s.tuning;
            });
    }

-- The canary is answered within 30 seconds, or not.
pub data Canary (A : Type 0) : Type 0 where
  within : Result A → Canary A
  timed_out : Canary A

pub record DeepResponse : Type 0 where
  pub status_code : ℕ
  pub status : Text
  pub error : Option Text

-- A panic of the worker reaches the caller of the pool as a reply that is dropped.
unfoldable pub health_deep : {A : Type 0} → Bool → Canary A → DeepResponse
health_deep false canary = record { status_code = 503; status = codes "loading"; error = none }
health_deep true (within (ok v)) = record { status_code = 200; status = codes "ok"; error = none }
health_deep true (within (err e)) = record {
  status_code = 503;
  status = codes "fail";
  error = some (display e);
}
health_deep true (within panic) = record {
  status_code = 503;
  status = codes "fail";
  error = some (codes "Worker dropped reply sender");
}
health_deep true timed_out = record {
  status_code = 503;
  status = codes "fail";
  error = some (codes "canary embed timed out");
}

abbrev pub status_of : {F : Type 0} → HealthBody F → Text
status_of (status_only status) = status
status_of (with_workers status live total) = status
status_of (serving status live total max_seq_length tuning) = status

-- The status that the counts of the workers call for, apart from the way the code finds it.
abbrev pub status_for : Bool → ℕ → ℕ → ℕ → Text
status_for false live loaded total = codes "loading"
status_for true live loaded total =
    if leb 1 live && (leb 1 loaded && leb total live)
    then codes "ok"
    else if leb 1 live && leb 1 loaded
    then codes "warn"
    else if leb 1 live
    then codes "idle"
    else codes "fail"

-- The branches of the route, by the counts.
health_live :
    {F : Type 0} (s : HealthState F)
    → s.ready ≡ true
    → ((health s).status_code ≡ (if leb 1 s.live then 200 else 503))
      × (status_of (health s).body ≡ status_for true s.live s.loaded s.total_workers)
unfolding health
health_live s r = elim (Bool-cases (s.live == 0)) [
  | inl e ↦
      let none_live : leb 1 s.live ≡ false = ground arith in
      simp (r, e, none_live, health) (refl, refl)
  | inr e ↦
      let some_live : leb 1 s.live ≡ true = ground arith in
      elim (Bool-cases (s.loaded == 0)) [
        | inl g ↦
            let none_loaded : leb 1 s.loaded ≡ false = ground arith in
            simp (r, e, g, some_live, none_loaded, health) (refl, refl)
        | inr g ↦
            let some_loaded : leb 1 s.loaded ≡ true = ground arith in
            elim (Bool-cases (ltb s.live s.total_workers)) [
              | inl k ↦
                  let few : leb s.total_workers s.live ≡ false = ground arith in
                  simp (r, e, g, k, few, some_live, some_loaded, health) (refl, refl)
              | inr k ↦
                  let enough : leb s.total_workers s.live ≡ true = ground arith in
                  simp (r, e, g, k, enough, some_live, some_loaded, health) (refl, refl)
            ]
      ]
]

-- The health route answers 200 exactly if the server is ready and has a live worker; `ok` if, besides, a worker has its models and no fewer workers
-- are live than configured, `warn` if fewer are, and `idle` if none has its models.
pub health-status :
    {F : Type 0} (s : HealthState F)
    → ((health s).status_code ≡ (if s.ready && leb 1 s.live then 200 else 503))
      × (status_of (health s).body ≡ status_for s.ready s.live s.loaded s.total_workers)
unfolding health
health-status s = elim (Bool-cases s.ready) [
  | inl r ↦
      let (code, status) = health_live s r in
      (
        code ∙ ap (λ b. if b && leb 1 s.live then 200 else 503) (sym r),
        status ∙ ap (λ b. status_for b s.live s.loaded s.total_workers) (sym r),
      )
  | inr r ↦ simp (r, health) (refl, refl)
]

-- Where a GPU is used and more workers are configured than there are GPUs, the pool has fewer workers
-- than the route compares with, so a ready server whose workers are all live and loaded still answers `warn`.
pub health-clamp_workers :
    {F : Type 0} (s : HealthState F) (config : PoolConfig)
    → is_gpu config.startup.ep ≡ true
    → gpus config < s.total_workers
    → s.ready ≡ true
    → s.live ≡ clamp_workers s.total_workers config
    → s.loaded ≡ clamp_workers s.total_workers config
    → status_of (health s).body ≡ codes "warn"
unfolding clamp_workers
health-clamp_workers s config gpu many ready live loaded =
    let clamped : clamp_workers s.total_workers config ≡ gpus config =
      rw (gpu, lt→ltb (gpus config) s.total_workers many, clamp_workers) refl in
    let some_live : leb 1 s.live ≡ true = ground arith in
    let some_loaded : leb 1 s.loaded ≡ true = ground arith in
    let few : leb s.total_workers s.live ≡ false = ground arith in
    (health_live s ready).1 ∙ rw (some_live, some_loaded, few) refl
