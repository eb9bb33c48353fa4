-- ===== src/Pool/Loading.antt =====
-- src/embedder/pool.rs: how many workers a pool has, what they are given, and when it is ready.
use bge_m3_embedding_server.Prelude.{
  ℕ, zero, suc, ◌+◌, ◌^◌, ◌≤◌, ◌<◌, ◌≡◌, refl, sym, ap, ◌∙◌, inl, inr, Bool, true, false, not, ◌&&◌,
  ◌||◌, ◌-◌, ◌*◌, Option, none, some, List, [], ◌∷◌, ◌++◌, arith, ltb, leb, ◌==◌, if◌then◌else◌,
  is_empty, length, length-append, Bool-cases, lt→ltb,
}
use bge_m3_embedding_server.AppError.{Result, ok, err, panic}
use bge_m3_embedding_server.Runtime.{Runtime}
use bge_m3_embedding_server.TrtWarmup.{Shape, Host, stride, shard_shapes}
use bge_m3_embedding_server.TrtWarmup.Shards.{count, count_shards, shard_shapes-count}
use bge_m3_embedding_server.Worker.Dispatch.{is_tensor_rt}
use bge_m3_embedding_server.Worker.Run.{fetch_add_one}
use bge_m3_embedding_server.Worker.Readiness.{is_ready, is_ok, Result-cases, startup_worker-ceiling}
use bge_m3_embedding_server.Pool.Spawn.{
  Joined, finished, failed, panicked, await_worker_signal, joined_of, PoolConfig, gpus, is_gpu,
  clamp_workers, make_worker_config, Surroundings, start_worker, load_from, EmbedPool, spawned_pool,
  spawn,
}

-- The init task learns from the signal alone whether the worker is ready.
await_worker_signal-is_ok :
    (id : ℕ) (signal : Option (Result ℕ)) (joined : Joined)
    → is_ok (await_worker_signal id signal joined) ≡ is_ready signal
unfolding await_worker_signal
await_worker_signal-is_ok id (some (ok delta)) joined = refl
await_worker_signal-is_ok id (some (err e)) joined = refl
await_worker_signal-is_ok id (some panic) joined = refl
await_worker_signal-is_ok id none finished = refl
await_worker_signal-is_ok id none (failed e) = refl
await_worker_signal-is_ok id none panicked = refl

pub clamp_workers-le : (n : ℕ) (config : PoolConfig) → clamp_workers n config ≤ n
unfolding clamp_workers
clamp_workers-le n config = ground arith

pub clamp_workers-gpus :
    (n : ℕ) (config : PoolConfig)
    → is_gpu config.startup.ep ≡ true
    → clamp_workers n config ≤ gpus config
unfolding clamp_workers
clamp_workers-gpus n config h = elim (Bool-cases (ltb (gpus config) n)) [
  | inl e ↦ rw (h, e, clamp_workers) (omega arith)
  | inr e ↦ rw (h, e, clamp_workers) (ground arith)
]

module _ (rt : Runtime) (host : Host rt) where
  abbrev pub worker_ready : Surroundings rt host → PoolConfig → ℕ → ℕ → Bool
  worker_ready around config n id = is_ready (start_worker rt host around config n id 0).signal

  -- How many of the `more` workers from `id` on are ready before the first that is not.
  abbrev pub ready_prefix : Surroundings rt host → PoolConfig → ℕ → ℕ → ℕ → ℕ
  ready_prefix around config n id zero = 0
  ready_prefix around config n id (suc more) =
      if worker_ready around config n id
      then suc (ready_prefix around config n (suc id) more)
      else 0

  pub ready_prefix-le :
      (around : Surroundings rt host) (config : PoolConfig) (n id more : ℕ)
      → ready_prefix around config n id more ≤ more
  ready_prefix-le around config n id zero = omega arith
  ready_prefix-le around config n id (suc more) =
      elim (Bool-cases (worker_ready around config n id)) [
        | inl e ↦ rw e (omega (arith, ready_prefix-le around config n (suc id) more))
        | inr e ↦ rw e (omega arith)
      ]

  load_from-counts :
      (around : Surroundings rt host) (config : PoolConfig) (n id more : ℕ) (deltas : List ℕ)
      (loaded ceiling : ℕ)
      → loaded + more < 2 ^ 64
      → let l = load_from rt host around config n id more deltas loaded ceiling in
        let ready = ready_prefix around config n id more in
        (l.loaded_workers ≡ loaded + ready)
        × (length l.rss_deltas ≡ length deltas + ready)
        × (is_ok l.result ≡ (ready == more))
  unfolding load_from
  load_from-counts around config n id zero deltas loaded ceiling b =
      (omega arith, omega arith, refl)
  load_from-counts around config n id (suc more) deltas loaded ceiling b =
      let st = start_worker rt host around config n id ceiling in
      let heard = await_worker_signal id st.signal (joined_of st.outcome) in
      let same : is_ok heard ≡ worker_ready around config n id =
        await_worker_signal-is_ok id st.signal (joined_of st.outcome)
        ∙ startup_worker-ceiling rt host id (make_worker_config config n id) (around.load_models id)
            (around.pre_load_rss id)
            (around.nvidia_smi ((make_worker_config config n id).device_id)) ceiling 0 in
      let never : (0 == suc more) ≡ false = ground arith in
      elim (Result-cases heard) [
        | inl h ↦
            let ready : worker_ready around config n id ≡ true = sym same ∙ ap is_ok h.1 in
            let added : fetch_add_one loaded ≡ loaded + 1 = omega arith in
            let (counted, measured, done) =
              load_from-counts around config n (suc id) more (deltas ++ h.0 ∷ []) (loaded + 1)
                st.warmed_seq_ceiling (omega arith) in
            let shift : (suc (ready_prefix around config n (suc id) more) == suc more)
                ≡ (ready_prefix around config n (suc id) more == more) =
              ground arith in
            rw (h.1, ready, added, load_from)
              (
                omega (arith, counted),
                omega (arith, measured, length-append deltas (h.0 ∷ [])),
                done ∙ sym shift,
              )
        | inr (inl h) ↦
            let unready : worker_ready around config n id ≡ false = sym same ∙ ap is_ok h.1 in
            rw (h.1, unready, load_from) (omega arith, omega arith, sym never)
        | inr (inr h) ↦
            let unready : worker_ready around config n id ≡ false = sym same ∙ ap is_ok h in
            rw (h, unready, load_from) (omega arith, omega arith, sym never)
      ]

  pub spawned_pool-counts :
      (around : Surroundings rt host) (config : PoolConfig) (n : ℕ)
      → n < 2 ^ 64
      → let p = spawned_pool rt host around config n in
        let ready = ready_prefix around config n 0 n in
        (p.loaded_workers ≡ ready) × (is_ok p.init ≡ (ready == n))
  unfolding spawned_pool
  spawned_pool-counts around config n b =
      let counts = load_from-counts around config n 0 n [] 0 0 (omega arith) in
      (omega (arith, counts.0), counts.2)

  -- A pool that is returned has as many workers as its channels can hold.
  pub spawn-eq-ok :
      (around : Surroundings rt host) (config : PoolConfig) (requested : ℕ) (p : EmbedPool rt host)
      → spawn rt host around config requested ≡ ok p
      → (clamp_workers requested config < 2 ^ 64)
        × (spawned_pool rt host around config (clamp_workers requested config) ≡ p)
  unfolding spawn
  spawn-eq-ok around config requested p h =
      let n = clamp_workers requested config in
      elim (Bool-cases ((n == 0) || ltb (2 ^ 61 - 1) (n * 4))) [
        | inl e ↦ cc (rw (e, spawn) at h)
        | inr e ↦ (ground (arith, e), cc (rw (e, spawn) at h))
      ]

  clamp_workers-pos :
      (requested : ℕ) (config : PoolConfig) → 0 < requested → 0 < clamp_workers requested config
  unfolding clamp_workers
  clamp_workers-pos requested config h = ground arith

  -- A pool is returned for such a count of workers.
  pub spawn-spawned_pool :
      (around : Surroundings rt host) (config : PoolConfig) (requested : ℕ)
      → 0 < requested
      → requested < 2 ^ 59
      → spawn rt host around config requested
        ≡ ok (spawned_pool rt host around config (clamp_workers requested config))
  unfolding spawn
  spawn-spawned_pool around config requested a b =
      let n = clamp_workers requested config in
      let some_worker = clamp_workers-pos requested config a in
      let few = clamp_workers-le requested config in
      let allowed : ((n == 0) || ltb (2 ^ 61 - 1) (n * 4)) ≡ false = ground arith in
      rw (allowed, spawn) refl

  -- With at least one worker, and fewer than 2^59, a pool is returned, which has the workers that were asked for, or on a GPU
  -- at most one for each GPU. It counts as loaded the workers that were ready before the first that was not, and is ready itself
  -- exactly if all of its workers were.
  pub spawn-counts :
      (around : Surroundings rt host) (config : PoolConfig) (requested : ℕ)
      → 0 < requested
      → requested < 2 ^ 59
      → let n = clamp_workers requested config in
        let ready = ready_prefix around config n 0 n in
        (p : EmbedPool rt host) × (spawn rt host around config requested ≡ ok p)
        × (p.spawned_workers ≡ n)
        × (p.loaded_workers ≡ ready)
        × (is_ok p.init ≡ (ready == n))
  unfolding spawned_pool
  spawn-counts around config requested a b =
      let n = clamp_workers requested config in
      let few = clamp_workers-le requested config in
      let (loaded, done) = spawned_pool-counts around config n (omega arith) in
      (
        spawned_pool rt host around config n,
        spawn-spawned_pool around config requested a b,
        refl,
        loaded,
        done,
      )

-- With a GPU, and a count of GPUs that fits 32 bits, each worker of the pool is given a GPU of its own, whose number is that of the worker.
pub make_worker_config-device_id :
    (requested : ℕ) (config : PoolConfig) (id : ℕ)
    → is_gpu config.startup.ep ≡ true
    → gpus config < 2 ^ 32
    → id < clamp_workers requested config
    → (make_worker_config config (clamp_workers requested config) id).device_id ≡ id
unfolding make_worker_config
make_worker_config-device_id requested config id gpu b h =
    let below : id < gpus config = omega (arith, clamp_workers-gpus requested config gpu) in
    rw (lt→ltb id (2 ^ 32) (omega arith), lt→ltb (gpus config) (2 ^ 32) b) (grind arith)

unsharded-nil : (id n : ℕ) → [] ≡ shard_shapes [] id n
unfolding shard_shapes stride
unsharded-nil id n = elim (Bool-cases (leb n 1)) [
  | inl e ↦ rw (e, shard_shapes) refl
  | inr e ↦ rw (e, shard_shapes) refl
]

-- Where a worker is given the whole list, its shard is the whole list.
whole_list :
    (shapes : List Shape) (id n : ℕ)
    → (if ltb 1 n && not (is_empty shapes) then shard_shapes shapes id n else shapes)
      ≡ shard_shapes shapes id n
unfolding shard_shapes
whole_list [] id n = elim (Bool-cases (ltb 1 n)) [
  | inl e ↦ rw e (unsharded-nil id n)
  | inr e ↦ rw e (unsharded-nil id n)
]
whole_list (s ∷ ss) id n = elim (Bool-cases (ltb 1 n)) [
  | inl e ↦ rw e refl
  | inr e ↦ let one : leb n 1 ≡ true = ground arith in rw (e, shard_shapes, one) refl
]

shapes_of :
    (config : PoolConfig) (n id : ℕ)
    → is_tensor_rt config.startup.ep ≡ true
    → (make_worker_config config n id).trt_warmup_shapes
      ≡ shard_shapes config.startup.trt_warmup_shapes id n
unfolding make_worker_config
shapes_of config n id h = rw h (whole_list config.startup.trt_warmup_shapes id n)

count_shards-same :
    (test : Shape → Bool) (f g : ℕ → List Shape) (from n : ℕ)
    → ((i : ℕ) → f i ≡ g i)
    → count_shards test f from n ≡ count_shards test g from n
count_shards-same test f g from zero h = refl
count_shards-same test f g from (suc n) h =
    omega (arith, ap (count test) (h from), count_shards-same test f g (suc from) n h)

-- With TensorRT, the workers of a pool together are given each warmup shape of the configuration exactly once, for
-- any number of workers but 0 and any test of a shape.
pub make_worker_config-shapes :
    (config : PoolConfig) (n : ℕ) (test : Shape → Bool)
    → is_tensor_rt config.startup.ep ≡ true
    → 0 < n
    → count_shards test (λ id. (make_worker_config config n id).trt_warmup_shapes) 0 n
      ≡ count test config.startup.trt_warmup_shapes
make_worker_config-shapes config n test h p =
    count_shards-same test _ (λ id. shard_shapes config.startup.trt_warmup_shapes id n) 0 n
      (λ id. shapes_of config n id h)
    ∙ shard_shapes-count test config.startup.trt_warmup_shapes n p
