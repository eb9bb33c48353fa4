-- ===== src/Worker/Propagation.antt =====
-- src/embedder/worker/propagation.rs: what a slow run tells the other workers, and how a worker
-- takes up what they tell.
use bge_m3_embedding_server.Prelude.{
  ℕ, Option, none, some, List, [], ◌∷◌, ◌++◌, ltb, if◌then◌else◌, length,
}
use bge_m3_embedding_server.Embed.Types.{EmbedStats}
use bge_m3_embedding_server.TrtWarmup.{Shape, has_shape}

-- `CHUNK_CACHE_HIT_THRESHOLD_MS`
abbrev pub chunk_cache_hit_threshold_ms : ℕ
chunk_cache_hit_threshold_ms = 5000

-- The channels that the workers share: the queue of suspects with its capacity, which is none
-- without adaptive warmup, and the shapes that were broadcast, which is none without TensorRT.
pub record Channels : Type 0 where
  pub jit_suspect_capacity : Option ℕ
  pub jit_suspects : List Shape
  pub engine_propagation : Option (List Shape)

-- `try_send` drops the shape if the queue is full.
unfoldable pub try_send_suspect : Channels → Shape → Channels
try_send_suspect c shape = elim c.jit_suspect_capacity [
  | none ↦ c
  | some capacity ↦
      if ltb (length c.jit_suspects) capacity
      then record c { jit_suspects = c.jit_suspects ++ shape ∷ [] }
      else c
]

-- The shape that was broadcast, if one was.
unfoldable pub log_inference_complete : EmbedStats → ℕ → Channels → Option Shape × Channels
unfolding try_send_suspect
log_inference_complete stats batch_len c =
    let cache_hit = ltb stats.inference_ms chunk_cache_hit_threshold_ms in
    let shape : Shape = (batch_len, stats.max_chunk_seq) in
    let c' = try_send_suspect c shape in
    if cache_hit then (none, c) else elim c'.engine_propagation [
      | none ↦ (none, c')
      | some sent ↦ (some shape, record c' { engine_propagation = some (sent ++ shape ∷ []) })
    ]

-- `HashSet::insert`
abbrev pub insert_shape : List Shape → Shape → List Shape
insert_shape set shape = if has_shape set shape then set else shape ∷ set

-- What `try_recv` gives before it is empty or closed.
pub data Received : Type 0 where
  shape_ready : Shape → Received
  lagged : ℕ → Received

-- `prewarm` uses a state.
unfoldable pub drain_engine_propagation :
    {S : Type 0} → (Shape → S → S) → List Received → List Shape → S → List Shape × S
drain_engine_propagation prewarm [] warmed_local s = (warmed_local, s)
drain_engine_propagation prewarm (lagged n ∷ rs) warmed_local s =
    drain_engine_propagation prewarm rs warmed_local s
drain_engine_propagation prewarm (shape_ready shape ∷ rs) warmed_local s =
    let s' = if has_shape warmed_local shape then s else prewarm shape s in
    drain_engine_propagation prewarm rs (insert_shape warmed_local shape) s'
