-- ===== src/Worker/Dispatch.antt =====
-- src/embedder/worker/dispatch.rs and the end of a request in guard.rs: a worker serves one request
-- with its session.
use bge_m3_embedding_server.Prelude.{
  ℕ, max, Bool, true, false, ◌&&◌, ◌||◌, Option, none, some, List, [], ◌∷◌, ltb, if◌then◌else◌,
  length, range_from, Text, codes, decimal, ◌++◌,
}
use bge_m3_embedding_server.AppError.{
  Result, ok, err, panic, ◌>>=◌, Error, map_err, anyhow, context, is_trt_shape_rejected,
}
use bge_m3_embedding_server.BinPack.{CostModel}
use bge_m3_embedding_server.JitGuard.{TrtJitGuard}
use bge_m3_embedding_server.Runtime.{Runtime}
use bge_m3_embedding_server.Scores.{largest}
use bge_m3_embedding_server.Tokenize.{tokenize_no_pad, build_chunk_arrays}
use bge_m3_embedding_server.Embed.Types.{ModelVariant, EmbedStats, SparseEmbedding, DualEmbedding}
use bge_m3_embedding_server.Embed.Chunks.{lens_of}
use bge_m3_embedding_server.Embed.{embed_dense, embed_sparse, embed_both}
use bge_m3_embedding_server.TrtWarmup.{
  Shape, Host, ProbeResult, PrewarmStats, trt_prewarm, prewarm_panics, probe_run_dense,
}
use bge_m3_embedding_server.Worker.Breaker.{
  InferenceOutcome, inference_ok, classify_inference_outcome,
}
use bge_m3_embedding_server.Worker.Retry.{is_trt_engine_build_fatal, embed_with_trt_retry}
use bge_m3_embedding_server.Worker.Propagation.{Channels, log_inference_complete, insert_shape}

-- `config::EpSelection`
pub data EpSelection : Type 0 where
  cpu cuda tensor_rt : EpSelection

abbrev pub is_tensor_rt : EpSelection → Bool
is_tensor_rt cpu = false
is_tensor_rt cuda = false
is_tensor_rt tensor_rt = true

-- The worker's number, the compute capability of its GPU, and what `WorkerConfig` says of requests. The shared parts of it, the cost model, the ceiling and the
-- channels, are passed with the state.
pub record WorkerConfig : Type 0 where
  pub id : ℕ
  pub ep : EpSelection
  pub model_variant : ModelVariant
  pub circuit_breaker_threshold : ℕ
  pub trt_inband_jit_guard_enabled : Bool
  pub trt_inband_jit_guard_seq : ℕ
  pub detected_sm : Option Text

-- `closed` is what `reply.is_closed()` gives when the worker takes the request up.
pub data EmbedRequest : Type 0 where
  dense sparse both : (texts : List Text) (closed : Bool) → EmbedRequest
  probe : (texts : List Text) → EmbedRequest
  adaptive_warmup : (batch seq : ℕ) → EmbedRequest

-- What is sent on the request's reply channel.
pub data Reply (F : Type 0) : Type 0 where
  dense_reply : Result (List (List F) × EmbedStats) → Reply F
  sparse_reply : Result (List (SparseEmbedding F) × EmbedStats) → Reply F
  both_reply : Result (List (DualEmbedding F) × EmbedStats) → Reply F
  probe_reply : Result ProbeResult → Reply F
  warmup_ack : Result ℕ → Reply F

-- `reply.send(result)`, which a panic does not reach.
unfoldable pub answer : {F A : Type 0} → (Result A → Reply F) → Result A → Option (Reply F)
answer to_reply panic = none
answer to_reply (ok a) = some (to_reply (ok a))
answer to_reply (err e) = some (to_reply (err e))

-- `reply_request_load_error`
unfoldable pub reply_request_load_error : {F : Type 0} → EmbedRequest → Error → Reply F
reply_request_load_error (dense texts closed) e = dense_reply (err e)
reply_request_load_error (sparse texts closed) e = sparse_reply (err e)
reply_request_load_error (both texts closed) e = both_reply (err e)
reply_request_load_error (probe texts) e = probe_reply (err e)
reply_request_load_error (adaptive_warmup batch seq) e = warmup_ack (err e)

-- `build_shape_guard`
unfoldable pub build_shape_guard : WorkerConfig → ℕ → Option TrtJitGuard
build_shape_guard config warmed_seq_ceiling =
    if is_tensor_rt config.ep && config.trt_inband_jit_guard_enabled
    then some (record {
      guard_seq = config.trt_inband_jit_guard_seq;
      warmed_seq_ceiling = warmed_seq_ceiling;
    })
    else none

-- What a request may change: the session, the shapes that this worker has warmed, and the ceiling
-- and the channels that all workers share.
pub record Desk (rt : Runtime) : Type 0 where
  pub session : rt.Session
  pub warmed_local : List Shape
  pub warmed_seq_ceiling : ℕ
  pub channels : Channels

-- The end of an embedding request. A panic of the embedding function ends the worker's thread.
unfoldable pub finalize_embed_route :
    {T : Type 0} {rt : Runtime}
    → WorkerConfig
    → ℕ
    → ℕ
    → Result (T × EmbedStats)
    → Desk rt
    → Result InferenceOutcome × Desk rt
finalize_embed_route config consecutive_failures batch_len panic d = (panic, d)
finalize_embed_route config consecutive_failures batch_len (err e) d = (
  ok (
      classify_inference_outcome (is_trt_engine_build_fatal e) (is_trt_shape_rejected e) true
        consecutive_failures config.circuit_breaker_threshold),
  d,
)
finalize_embed_route config consecutive_failures batch_len (ok (v, stats)) d =
    let (broadcast, channels) = log_inference_complete stats batch_len d.channels in
    let warmed_local : List Shape = elim broadcast [
      | none ↦ d.warmed_local
      | some shape ↦ insert_shape d.warmed_local shape
    ] in
    (
      ok (
          classify_inference_outcome false false false consecutive_failures
            config.circuit_breaker_threshold),
      record d { warmed_local = warmed_local; channels = channels },
    )

-- What a request comes to: its outcome, and whether it was skipped.
pub record DispatchOutcome (rt : Runtime) : Type 0 where
  pub outcome : Result InferenceOutcome
  pub skip : Bool
  pub reply : Option (Reply rt.F32)
  pub desk : Desk rt

-- Whether a probe failed does not matter to the worker.
unfoldable pub probe_outcome : Result ProbeResult → Result InferenceOutcome
probe_outcome (ok p) = ok inference_ok
probe_outcome (err e) = ok inference_ok
probe_outcome panic = panic

module _ (rt : Runtime) (host : Host rt) where
  open rt use {F32, Session, Tokenizer}

  -- `worker::probe::run_probe_batch`
  unfoldable pub run_probe_batch : Tokenizer → List Text → Session → Result ProbeResult × Session
  run_probe_batch tokenizer texts s =
      let built = (do
        encodings ← (tokenize_no_pad rt tokenizer texts).0
        build_chunk_arrays rt encodings (range_from 0 (length texts))
            (max (largest (lens_of encodings)) 1)) in
      elim built [
        | err e ↦ (err e, s)
        | panic ↦ (panic, s)
        | ok (ids, mask) ↦ let ((r, ms), s') = probe_run_dense rt host s ids mask in (r, s')
      ]

  -- The warmup of one shape: a shape that is covered now raises the ceiling.
  unfoldable pub warm_shape : WorkerConfig → Shape → Desk rt → PrewarmStats × Desk rt
  warm_shape config shape d =
      let (stats, s') = trt_prewarm rt host (shape ∷ []) config.detected_sm d.session in
      let ceiling =
        if ltb 0 stats.warmed || stats.fully_cached
        then max d.warmed_seq_ceiling (max stats.max_warmed_seq shape.1)
        else d.warmed_seq_ceiling in
      (stats, record d { session = s'; warmed_seq_ceiling = ceiling })

  -- An embedding route: skip a closed request, else embed with a retry and finish.
  unfoldable pub serve_route :
      {T : Type 0}
      → WorkerConfig
      → ℕ
      → (Result (T × EmbedStats) → Reply F32)
      → Text
      → (CostModel rt.floats.Carrier → Session → Result (T × EmbedStats) × Session)
      → CostModel rt.floats.Carrier
      → ℕ
      → Bool
      → Desk rt
      → DispatchOutcome rt
  unfolding answer
  serve_route config consecutive_failures to_reply msg embed cm batch_len closed d =
      let (raw, s') = embed_with_trt_retry embed cm d.session in
      let result = map_err (context msg) raw in
      let (outcome, d') =
        finalize_embed_route config consecutive_failures batch_len result
          (record d { session = s' }) in
      if closed
      then record { outcome = ok inference_ok; skip = true; reply = none; desk = d }
      else record { outcome = outcome; skip = false; reply = answer to_reply result; desk = d' }

  unfoldable pub dispatch_request :
      WorkerConfig
      → CostModel rt.floats.Carrier
      → Tokenizer
      → ℕ
      → Option TrtJitGuard
      → EmbedRequest
      → Desk rt
      → DispatchOutcome rt
  unfolding serve_route run_probe_batch answer probe_outcome
  dispatch_request config cm tokenizer consecutive_failures guard (dense texts closed) d =
      serve_route config consecutive_failures dense_reply (codes "Dense embed error")
        (λ m s. embed_dense rt tokenizer texts m config.model_variant guard s) cm (length texts)
        closed d
  dispatch_request config cm tokenizer consecutive_failures guard (sparse texts closed) d =
      serve_route config consecutive_failures sparse_reply (codes "Sparse embed error")
        (λ m s. embed_sparse rt tokenizer texts m config.model_variant guard s) cm (length texts)
        closed d
  dispatch_request config cm tokenizer consecutive_failures guard (both texts closed) d =
      serve_route config consecutive_failures both_reply (codes "Dual embed error")
        (λ m s. embed_both rt tokenizer texts m config.model_variant guard s) cm (length texts)
        closed d
  dispatch_request config cm tokenizer consecutive_failures guard (probe texts) d =
      let (r, s') = run_probe_batch tokenizer texts d.session in
      record {
        outcome = probe_outcome r;
        skip = false;
        reply = answer probe_reply r;
        desk = record d { session = s' };
      }
  dispatch_request config cm tokenizer consecutive_failures guard (adaptive_warmup batch seq) d =
      let (stats, d') = warm_shape config (batch, seq) d in
      let message =
        codes "adaptive warmup: no shapes warmed for ("
        ++ (decimal batch
            ++ (codes ", " ++ (decimal seq ++ (codes ") on worker " ++ decimal config.id)))) in
      let warmed : Result ℕ =
        if ltb 0 stats.warmed || stats.fully_cached
        then ok stats.total_compile_ms
        else err (anyhow message) in
      if is_tensor_rt config.ep
      then if prewarm_panics rt host ((batch, seq) ∷ []) config.detected_sm d.session
        then record { outcome = panic; skip = false; reply = none; desk = d' }
        else record {
          outcome = ok inference_ok;
          skip = false;
          reply = some (warmup_ack warmed);
          desk = d';
        }
      else record {
        outcome = ok inference_ok;
        skip = false;
        reply = some (warmup_ack (ok 0));
        desk = d;
      }
