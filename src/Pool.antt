-- ===== src/Pool.antt =====
-- src/embedder/pool.rs: what a caller of the worker pool gets. The workers themselves are in
-- `Worker`.
pub mod Spawn
pub mod Loading
pub mod Devices
mod Tests
use bge_m3_embedding_server.Prelude.{ℕ, ◌-◌, List, codes}
use bge_m3_embedding_server.AppError.{Result, err, anyhow}
use bge_m3_embedding_server.Embed.Types.{EmbedStats, SparseEmbedding, DualEmbedding}
use bge_m3_embedding_server.TrtWarmup.{ProbeResult}

-- What becomes of a request: its channel is closed, the worker drops its reply sender, or it
-- replies.
pub data Delivery (A : Type 0) : Type 0 where
  channel_closed reply_dropped : Delivery A
  replied : Result A → Delivery A

-- Send a request, and wait for its reply.
unfoldable pub ask : {A : Type 0} → Delivery A → Result A
ask channel_closed = err (anyhow (codes "EmbedPool channel closed"))
ask reply_dropped = err (anyhow (codes "Worker dropped reply sender"))
ask (replied r) = r

unfoldable pub dense :
    {F : Type 0} → Delivery (List (List F) × EmbedStats) → Result (List (List F) × EmbedStats)
unfolding ask
dense d = ask d

unfoldable pub sparse :
    {F : Type 0}
    → Delivery (List (SparseEmbedding F) × EmbedStats)
    → Result (List (SparseEmbedding F) × EmbedStats)
unfolding ask
sparse d = ask d

unfoldable pub both :
    {F : Type 0}
    → Delivery (List (DualEmbedding F) × EmbedStats)
    → Result (List (DualEmbedding F) × EmbedStats)
unfolding ask
both d = ask d

unfoldable pub probe : Delivery ProbeResult → Result ProbeResult
unfolding ask
probe d = ask d

-- `tx.max_capacity().saturating_sub(tx.capacity())`
unfoldable pub queue_depth : ℕ → ℕ → ℕ
queue_depth max_capacity capacity = max_capacity - capacity
