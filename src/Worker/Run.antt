-- ===== src/Worker/Run.antt =====
-- src/embedder/worker/run.rs: the request loop of a worker thread, one iteration at a time, and the
-- counters of live and loaded workers that it keeps.
use bge_m3_embedding_server.Prelude.{
  ℕ, ◌+◌, ◌-◌, ◌%◌, ◌^◌, Bool, true, false, Option, none, some, List, ◌++◌, [], ◌∷◌, if◌then◌else◌,
  replicate, codes,
}
use bge_m3_embedding_server.AppError.{Result, ok, err, panic, anyhow, display}
use bge_m3_embedding_server.BinPack.{CostModel}
use bge_m3_embedding_server.Runtime.{Runtime, Array2}
use bge_m3_embedding_server.TrtWarmup.{Shape, Host, prewarm_panics, probe_run_dense}
use bge_m3_embedding_server.Worker.Startup.{prime_panics}
use bge_m3_embedding_server.Worker.Breaker.{
  InferenceOutcome, inference_ok, failure, trt_fatal, circuit_break, shape_rejected,
  next_consecutive_failures, should_unload_on_outcome,
}
use bge_m3_embedding_server.Worker.Propagation.{Channels, Received, drain_engine_propagation}
use bge_m3_embedding_server.Worker.Dispatch.{
  WorkerConfig, EmbedRequest, Reply, Desk, DispatchOutcome, is_tensor_rt, reply_request_load_error,
  build_shape_guard, warm_shape, dispatch_request,
}

-- `AtomicUsize::fetch_add(1)` and `fetch_sub(1)`
abbrev pub fetch_add_one : ℕ → ℕ
fetch_add_one n = (n + 1) % 2 ^ 64

abbrev pub fetch_sub_one : ℕ → ℕ
fetch_sub_one n = (n + (2 ^ 64 - 1)) % 2 ^ 64

-- The variables of the loop, and the atomics that all workers share.
pub record Worker (rt : Runtime) : Type 0 where
  pub models : Option (rt.Session × rt.Tokenizer)
  pub warmed_local : List Shape
  pub consecutive_failures : ℕ
  pub warmed_seq_ceiling : ℕ
  pub channels : Channels
  pub live_workers : ℕ
  pub loaded_workers : ℕ

-- What the worker receives: nothing within the idle timeout, the end of the channel, or a request.
pub data Message : Type 0 where
  timed_out channel_closed : Message
  request : EmbedRequest → Message

-- An iteration goes on, or ends the thread: with `Ok`, with `Err`, or by a panic.
pub data Ran (rt : Runtime) : Type 0 where
  running finished failed panicked : Worker rt → Ran rt

-- `WorkerGuard::drop`
unfoldable pub drop_guard : {rt : Runtime} → Worker rt → Worker rt
drop_guard w = record w { live_workers = fetch_sub_one w.live_workers }

unfoldable pub unload : {rt : Runtime} → Worker rt → Worker rt
unload w = record w { models = none; loaded_workers = fetch_sub_one w.loaded_workers }

-- The desk of a worker with its session, and the worker after the desk was used.
unfoldable pub desk_of : {rt : Runtime} → Worker rt → rt.Session → Desk rt
desk_of w s = record {
  session = s;
  warmed_local = w.warmed_local;
  warmed_seq_ceiling = w.warmed_seq_ceiling;
  channels = w.channels;
}

unfoldable pub put_back : {rt : Runtime} → Worker rt → rt.Tokenizer → Desk rt → Worker rt
put_back w tokenizer d = record w {
  models = some (d.session, tokenizer);
  warmed_local = d.warmed_local;
  warmed_seq_ceiling = d.warmed_seq_ceiling;
  channels = d.channels;
}

-- `matches!(outcome, InferenceOutcome::TrtFatal)`
abbrev pub is_trt_fatal : InferenceOutcome → Bool
is_trt_fatal trt_fatal = true
is_trt_fatal inference_ok = false
is_trt_fatal failure = false
is_trt_fatal circuit_break = false
is_trt_fatal shape_rejected = false

-- What follows the dispatch of a request, whose outcome is never `err`.
unfoldable pub settle : {rt : Runtime} → Worker rt → rt.Tokenizer → DispatchOutcome rt → Ran rt
unfolding drop_guard unload put_back
settle w tokenizer o =
    let w' = put_back w tokenizer o.desk in
    elim o.outcome [
      | panic ↦ panicked (drop_guard w')
      | err e ↦ panicked (drop_guard w')
      | ok outcome ↦
          let counted = record w' {
            consecutive_failures = next_consecutive_failures outcome w.consecutive_failures;
          } in
          if o.skip
          then running w'
          else if is_trt_fatal outcome
          then failed (drop_guard counted)
          else if should_unload_on_outcome outcome
          then running (unload counted)
          else running counted
    ]

module _ (rt : Runtime) (host : Host rt) where
  open rt use {F32, Session, Tokenizer}

  -- A warmup of the drain, and whether one has panicked; none follows.
  abbrev pub drain_step : WorkerConfig → Shape → Desk rt × Bool → Desk rt × Bool
  drain_step config shape (d, true) = (d, true)
  drain_step config shape (d, false) = (
    (warm_shape rt host config shape d).1,
    prewarm_panics rt host (shape ∷ []) config.detected_sm d.session,
  )

  -- Take up what the other workers have broadcast, and whether this panics.
  unfoldable pub drain : WorkerConfig → List Received → Worker rt → Worker rt × Bool
  unfolding desk_of put_back
  drain config received w = elim w.models [
    | none ↦ (w, false)
    | some (session, tokenizer) ↦
        let (warmed_local, drained) =
          drain_engine_propagation (drain_step config) received w.warmed_local
            (desk_of w session, false) in
        elim w.channels.engine_propagation [
          | none ↦ (w, false)
          | some sent ↦
              if is_tensor_rt config.ep
              then (
                put_back w tokenizer (record drained.0 { warmed_local = warmed_local }),
                drained.1,
              )
              else (w, false)
        ]
  ]

  -- Load the models again, and prime the session's arena with a batch of one text of 8 tokens,
  -- which does not panic. An error of it is dropped.
  unfoldable pub reload : Session → Tokenizer → Worker rt → Worker rt
  reload session tokenizer w =
      let ids : Array2 = record { rows = 1; cols = 8; flat = replicate 8 0 } in
      let mask : Array2 = record { rows = 1; cols = 8; flat = replicate 8 1 } in
      let (r, session') = probe_run_dense rt host session ids mask in
      record w {
        models = some (session', tokenizer);
        loaded_workers = fetch_add_one w.loaded_workers;
      }

  unfoldable pub serve :
      WorkerConfig
      → CostModel rt.floats.Carrier
      → EmbedRequest
      → Session
      → Tokenizer
      → Worker rt
      → Ran rt × Option (Reply F32)
  unfolding settle desk_of
  serve config cm req session tokenizer w =
      let shape_guard = build_shape_guard config w.warmed_seq_ceiling in
      let o =
        dispatch_request rt host config cm tokenizer w.consecutive_failures shape_guard req
          (desk_of w session) in
      (settle w tokenizer o, o.reply)

  -- A request finds the models loaded, or loads them: `loading` is what `load_models` gives.
  unfoldable pub take_up :
      WorkerConfig
      → CostModel rt.floats.Carrier
      → Result (Session × Tokenizer)
      → EmbedRequest
      → Worker rt
      → Ran rt × Option (Reply F32)
  unfolding serve reload drop_guard prime_panics
  take_up config cm loading req w = elim w.models [
    | some (session, tokenizer) ↦ serve config cm req session tokenizer w
    | none ↦ elim loading [
      | panic ↦ (panicked (drop_guard w), none)
      | err e ↦ (
        running w,
        some (reply_request_load_error req (anyhow (codes "Model reload failed: " ++ display e))),
      )
      | ok (session, tokenizer) ↦
          let w' = reload session tokenizer w in
          if prime_panics rt host session then (panicked (drop_guard w), none) else elim w'.models [
            | none ↦ (panicked (drop_guard w'), none)
            | some (s, t) ↦ serve config cm req s t w'
          ]
    ]
  ]

  unfoldable pub receive :
      WorkerConfig
      → CostModel rt.floats.Carrier
      → Result (Session × Tokenizer)
      → Message
      → Worker rt
      → Ran rt × Option (Reply F32)
  unfolding take_up unload drop_guard
  receive config cm loading timed_out w = (running (unload w), none)
  receive config cm loading channel_closed w =
      (finished (drop_guard (elim w.models [ none ↦ w | some m ↦ unload w ])), none)
  receive config cm loading (request req) w = take_up config cm loading req w

  -- One iteration of the loop.
  unfoldable pub iterate :
      WorkerConfig
      → CostModel rt.floats.Carrier
      → List Received
      → Result (Session × Tokenizer)
      → Message
      → Worker rt
      → Ran rt × Option (Reply F32)
  unfolding receive drain drop_guard
  iterate config cm received loading message w =
      let (w', crashed) = drain config received w in
      if crashed then (panicked (drop_guard w'), none) else receive config cm loading message w'
