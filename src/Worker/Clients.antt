-- ===== src/Worker/Clients.antt =====
-- What the clients of a worker get.
use bge_m3_embedding_server.Prelude.{
  [], ◌∷◌, ℕ, ◌≡◌, refl, ◌⊎◌, inl, inr, Bool, true, false, Option, none, some, Text, codes,
  Bool-cases, length,
}
use bge_m3_embedding_server.AppError.{Result, ok, err, panic, map_err, context}
use bge_m3_embedding_server.BinPack.{CostModel}
use bge_m3_embedding_server.Runtime.{Runtime}
use bge_m3_embedding_server.Embed.Types.{EmbedStats}
use bge_m3_embedding_server.TrtWarmup.{Host, prewarm_panics, ProbeResult}
use bge_m3_embedding_server.JitGuard.{TrtJitGuard}
use bge_m3_embedding_server.Worker.Dispatch.{
  WorkerConfig, EmbedRequest, probe_outcome, dense_reply, sparse_reply, both_reply, probe_reply,
  dense, sparse, both, probe, adaptive_warmup, Reply, Desk, DispatchOutcome, is_tensor_rt, answer,
  finalize_embed_route, serve_route, run_probe_batch, dispatch_request, build_shape_guard,
}
use bge_m3_embedding_server.Worker.Run.{
  Worker, running, panicked, desk_of, settle, put_back, serve, drop_guard,
}

-- The client of an embedding request is gone when the worker takes it up.
abbrev pub is_abandoned : EmbedRequest → Bool
is_abandoned (dense texts closed) = closed
is_abandoned (sparse texts closed) = closed
is_abandoned (both texts closed) = closed
is_abandoned (probe texts) = false
is_abandoned (adaptive_warmup batch seq) = false

-- The client gets a reply, or the worker panics, which drops the reply channel.
abbrev IsAnswered : {rt : Runtime} → DispatchOutcome rt → Type 0
IsAnswered o = ((r : Reply _) × (o.reply ≡ some r)) ⊎ (o.outcome ≡ panic)

module _ (rt : Runtime) (host : Host rt) where
  -- A request that its client has abandoned leaves the worker as it was, and nothing is sent.
  pub serve_abandoned :
      (config : WorkerConfig) (cm : CostModel rt.floats.Carrier) (req : EmbedRequest)
      (s : rt.Session) (t : rt.Tokenizer) (w : Worker rt)
      → is_abandoned req ≡ true
      → serve rt host config cm req s t (record w { models = some (s, t) })
        ≡ (running (record w { models = some (s, t) }), none)
  unfolding serve settle put_back desk_of dispatch_request serve_route
  serve_abandoned config cm (dense texts closed) s t w h = rw h refl
  serve_abandoned config cm (sparse texts closed) s t w h = rw h refl
  serve_abandoned config cm (both texts closed) s t w h = rw h refl
  serve_abandoned config cm (probe texts) s t w h = cc h
  serve_abandoned config cm (adaptive_warmup batch seq) s t w h = cc h

  answered_route :
      {T : Type 0} (config : WorkerConfig) (failures : ℕ)
      (to_reply : Result (T × EmbedStats) → Reply rt.F32) (msg : Text) (n : ℕ)
      (raw : Result (T × EmbedStats)) (d : Desk rt)
      → ((r : Reply rt.F32) × (answer to_reply (map_err (context msg) raw) ≡ some r))
        ⊎ ((finalize_embed_route config failures n (map_err (context msg) raw) d).0 ≡ panic)
  unfolding answer finalize_embed_route
  answered_route config failures to_reply msg n (ok v) d = inl (_, refl)
  answered_route config failures to_reply msg n (err e) d = inl (_, refl)
  answered_route config failures to_reply msg n panic d = inr refl

  answered_probe :
      (r : Result ProbeResult)
      → ((reply : Reply rt.F32) × (answer probe_reply r ≡ some reply)) ⊎ (probe_outcome r ≡ panic)
  unfolding answer probe_outcome
  answered_probe (ok p) = inl (_, refl)
  answered_probe (err e) = inl (_, refl)
  answered_probe panic = inr refl

  dispatch_request-IsAnswered :
      (config : WorkerConfig) (cm : CostModel rt.floats.Carrier) (t : rt.Tokenizer) (failures : ℕ)
      (guard : Option TrtJitGuard) (req : EmbedRequest) (d : Desk rt)
      → is_abandoned req ≡ false
      → IsAnswered (dispatch_request rt host config cm t failures guard req d)
  unfolding dispatch_request serve_route
  dispatch_request-IsAnswered config cm t failures guard (dense texts closed) d h =
      rw h
        (answered_route config failures dense_reply (codes "Dense embed error") (length texts) _ _)
  dispatch_request-IsAnswered config cm t failures guard (sparse texts closed) d h =
      rw h (
        answered_route config failures sparse_reply (codes "Sparse embed error") (length texts) _ _)
  dispatch_request-IsAnswered config cm t failures guard (both texts closed) d h =
      rw h (answered_route config failures both_reply (codes "Dual embed error") (length texts) _ _)
  dispatch_request-IsAnswered config cm t failures guard (probe texts) d h =
      answered_probe (run_probe_batch rt host t texts d.session).0
  dispatch_request-IsAnswered config cm t failures guard (adaptive_warmup batch seq) d h =
      elim (Bool-cases (is_tensor_rt config.ep)) [
        | inl e ↦
            elim (Bool-cases
              (prewarm_panics rt host ((batch, seq) ∷ []) config.detected_sm d.session)) [
                | inl p ↦ rw (e, p, dispatch_request) (inr refl)
                | inr p ↦ rw (e, p, dispatch_request) (inl (_, refl))
              ]
        | inr e ↦ rw (e, dispatch_request) (inl (_, refl))
      ]

  settle-panic :
      (w : Worker rt) (t : rt.Tokenizer) (o : DispatchOutcome rt)
      → o.outcome ≡ panic
      → settle w t o ≡ panicked (drop_guard (put_back w t o.desk))
  unfolding settle
  settle-panic w t o e = rw (e, settle) refl

  -- A client that waits for a loaded worker gets a reply, or the worker's thread panics.
  pub serve-answers :
      (config : WorkerConfig) (cm : CostModel rt.floats.Carrier) (req : EmbedRequest)
      (s : rt.Session) (t : rt.Tokenizer) (w : Worker rt)
      → is_abandoned req ≡ false
      → ((r : Reply rt.F32) × ((serve rt host config cm req s t w).1 ≡ some r))
        ⊎ ((w' : Worker rt) × ((serve rt host config cm req s t w).0 ≡ panicked w'))
  unfolding serve
  serve-answers config cm req s t w h =
      let guard = build_shape_guard config w.warmed_seq_ceiling in
      let o = dispatch_request rt host config cm t w.consecutive_failures guard req (desk_of w s) in
      elim (dispatch_request-IsAnswered config cm t w.consecutive_failures guard req (desk_of w s)
        h) [ inl (r, e) ↦ inl (r, e) | inr e ↦ inr (_, settle-panic w t o e) ]
