-- ===== src/Worker/Counters.antt =====
-- What one worker does to the shared counters of live and loaded workers.
use bge_m3_embedding_server.Prelude.{
  ℕ, ◌+◌, ◌^◌, ◌<◌, ◌≡◌, refl, inl, inr, Bool, true, false, Option, none, some, List, arith,
  Bool-cases,
}
use bge_m3_embedding_server.AppError.{Result, ok, err, panic}
use bge_m3_embedding_server.BinPack.{CostModel}
use bge_m3_embedding_server.Runtime.{Runtime}
use bge_m3_embedding_server.TrtWarmup.{Shape, Host}
use bge_m3_embedding_server.Worker.Breaker.{
  InferenceOutcome, inference_ok, failure, trt_fatal, circuit_break, shape_rejected,
  should_unload_on_outcome,
}
use bge_m3_embedding_server.Worker.Propagation.{Received}
use bge_m3_embedding_server.Worker.Dispatch.{
  WorkerConfig, EmbedRequest, Reply, Desk, is_tensor_rt, dispatch_request, build_shape_guard,
}
use bge_m3_embedding_server.Worker.Startup.{prime_panics}
use bge_m3_embedding_server.Worker.Run.{
  Worker, Message, timed_out, channel_closed, request, Ran, running, finished, failed, panicked,
  drop_guard, unload, desk_of, put_back, settle, drain, reload, serve, take_up, receive, iterate,
}

-- 1 for a worker that has its models, else 0.
abbrev pub held : {rt : Runtime} → Worker rt → ℕ
held w = elim w.models [ none ↦ 0 | some m ↦ 1 ]

-- The counters after an iteration, for a worker besides which `others` are loaded and among
-- `live` live ones. A worker that ends with `Err` stays counted as loaded.
abbrev pub Accounts : {rt : Runtime} → ℕ → ℕ → Ran rt → Type 0
Accounts others live (running w) = (w.loaded_workers ≡ others + held w) × (w.live_workers ≡ live)
Accounts others live (finished w) = (w.loaded_workers ≡ others) × (w.live_workers + 1 ≡ live)
Accounts others live (failed w) = (w.loaded_workers ≡ others + 1) × (w.live_workers + 1 ≡ live)
Accounts others live (panicked w) =
    (w.loaded_workers ≡ others + held w) × (w.live_workers + 1 ≡ live)

-- The timeout is waited for only with models loaded.
abbrev pub IsPossible : {rt : Runtime} → Message → Worker rt → Type 0
IsPossible timed_out w = held w ≡ 1
IsPossible channel_closed w = Unit
IsPossible (request req) w = Unit

module _ (rt : Runtime) (host : Host rt) (others live : ℕ) (some_live : 0 < live)
    (few_live : live < 2 ^ 64) (few_others : others + 1 < 2 ^ 64) where
  settle_cases :
      (w : Worker rt) (t : rt.Tokenizer) (outcome : Result InferenceOutcome) (skip : Bool)
      (reply : Option (Reply rt.F32)) (d : Desk rt)
      → w.loaded_workers ≡ others + 1
      → w.live_workers ≡ live
      → Accounts others live
          (settle w t (record { outcome = outcome; skip = skip; reply = reply; desk = d }))
  unfolding settle drop_guard unload put_back should_unload_on_outcome
  settle_cases w t panic skip reply d h k = (h, omega arith)
  settle_cases w t (err e) skip reply d h k = (h, omega arith)
  settle_cases w t (ok outcome) true reply d h k = (h, k)
  settle_cases w t (ok inference_ok) false reply d h k = (h, k)
  settle_cases w t (ok failure) false reply d h k = (h, k)
  settle_cases w t (ok trt_fatal) false reply d h k = (h, omega arith)
  settle_cases w t (ok circuit_break) false reply d h k = (omega arith, k)
  settle_cases w t (ok shape_rejected) false reply d h k = (h, k)

  serve-Accounts :
      (config : WorkerConfig) (cm : CostModel rt.floats.Carrier) (req : EmbedRequest)
      (s : rt.Session) (t : rt.Tokenizer) (w : Worker rt)
      → w.loaded_workers ≡ others + 1
      → w.live_workers ≡ live
      → Accounts others live (serve rt host config cm req s t w).0
  unfolding serve
  serve-Accounts config cm req s t w h k =
      let o =
        dispatch_request rt host config cm t w.consecutive_failures
          (build_shape_guard config w.warmed_seq_ceiling) req (desk_of w s) in
      settle_cases w t o.outcome o.skip o.reply o.desk h k

  take_up_loaded :
      (config : WorkerConfig) (cm : CostModel rt.floats.Carrier)
      (loading : Result (rt.Session × rt.Tokenizer)) (req : EmbedRequest) (w : Worker rt)
      (m : rt.Session × rt.Tokenizer)
      → w.loaded_workers ≡ others + 1
      → w.live_workers ≡ live
      → Accounts others live
          (take_up rt host config cm loading req (record w { models = some m })).0
  unfolding take_up
  take_up_loaded config cm loading req w (s, t) h k =
      serve-Accounts config cm req s t (record w { models = some (s, t) }) h k

  take_up_unloaded :
      (config : WorkerConfig) (cm : CostModel rt.floats.Carrier)
      (loading : Result (rt.Session × rt.Tokenizer)) (req : EmbedRequest) (w : Worker rt)
      → w.loaded_workers ≡ others
      → w.live_workers ≡ live
      → Accounts others live (take_up rt host config cm loading req (record w { models = none })).0
  unfolding take_up reload drop_guard
  take_up_unloaded config cm (ok (s, t)) req w h k = elim (Bool-cases (prime_panics rt host s)) [
    | inl e ↦ rw (e, take_up, drop_guard) (omega arith, omega arith)
    | inr e ↦
        rw (e, take_up)
          (serve-Accounts config cm req _ t (reload rt host s t (record w { models = none }))
            (omega arith) k)
  ]
  take_up_unloaded config cm (err e) req w h k = (omega arith, k)
  take_up_unloaded config cm panic req w h k = (omega arith, omega arith)

  receive_cases :
      (config : WorkerConfig) (cm : CostModel rt.floats.Carrier)
      (loading : Result (rt.Session × rt.Tokenizer)) (message : Message) (w : Worker rt)
      (models : Option (rt.Session × rt.Tokenizer))
      → let w' = record w { models = models } in
        w.loaded_workers ≡ others + held w'
        → w.live_workers ≡ live
        → IsPossible message w'
        → Accounts others live (receive rt host config cm loading message w').0
  unfolding receive unload drop_guard
  receive_cases config cm loading timed_out w none h k p = absurd (omega arith)
  receive_cases config cm loading timed_out w (some m) h k p = (omega arith, k)
  receive_cases config cm loading channel_closed w none h k p = (omega arith, omega arith)
  receive_cases config cm loading channel_closed w (some m) h k p = (omega arith, omega arith)
  receive_cases config cm loading (request req) w none h k p =
      take_up_unloaded config cm loading req w (omega arith) k
  receive_cases config cm loading (request req) w (some m) h k p =
      take_up_loaded config cm loading req w m h k

  -- Draining changes neither counter, and neither loads nor unloads.
  drain_cases :
      (config : WorkerConfig) (received : List Received) (w : Worker rt)
      (models : Option (rt.Session × rt.Tokenizer)) (sent : Option (List Shape))
      → let w' = record w {
        models = models;
        channels = record w.channels { engine_propagation = sent };
      } in
        let drained = (drain rt host config received w').0 in
        (drained.loaded_workers ≡ w.loaded_workers)
        × (drained.live_workers ≡ w.live_workers)
        × (held drained ≡ held w')
  unfolding drain put_back
  drain_cases config received w none sent = (refl, refl, refl)
  drain_cases config received w (some m) none = (refl, refl, refl)
  drain_cases config received w (some m) (some sent) = elim (Bool-cases (is_tensor_rt config.ep)) [
    | inl e ↦ (rw (e, drain) refl, rw (e, drain) refl, rw (e, drain) refl)
    | inr e ↦ (rw (e, drain) refl, rw (e, drain) refl, rw (e, drain) refl)
  ]

  IsPossible-held :
      (message : Message) (w v : Worker rt)
      → held w ≡ held v
      → IsPossible message v
      → IsPossible message w
  IsPossible-held timed_out w v e p = omega arith
  IsPossible-held channel_closed w v e p = tt
  IsPossible-held (request req) w v e p = tt

  -- Take a worker that is counted as live, and as loaded exactly if it has its models, among less than
  -- 2^64 live workers and besides less than 2^64 - 1 loaded ones, and a message that it can receive. If
  -- an iteration goes on, it is counted so again. If it ends, it is counted as live no more, and not as
  -- loaded after the channel closed, still as loaded after an error, and after a panic as loaded if it
  -- had its models.
  pub iterate-Accounts :
      (config : WorkerConfig) (cm : CostModel rt.floats.Carrier) (received : List Received)
      (loading : Result (rt.Session × rt.Tokenizer)) (message : Message) (w : Worker rt)
      → w.loaded_workers ≡ others + held w
      → w.live_workers ≡ live
      → IsPossible message w
      → Accounts others live (iterate rt host config cm received loading message w).0
  unfolding iterate drop_guard
  iterate-Accounts config cm received loading message w h k p =
      let (drained, crashed) = drain rt host config received w in
      let (loaded, lives, holds) =
        drain_cases config received w w.models w.channels.engine_propagation in
      elim (Bool-cases crashed) [
        | inl e ↦ rw e (omega (arith, loaded, holds), omega (arith, lives))
        | inr e ↦ rw e (
            receive_cases config cm loading message drained drained.models (omega arith)
              (omega arith) (IsPossible-held message drained w holds p))
      ]
