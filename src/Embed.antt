-- ===== src/Embed.antt =====
-- src/embedder/dense.rs, sparse.rs and dual.rs: the three embedding functions. `Embed/Chunks` has
-- the chunk loop that they share, and here stands what each does with the outputs of a chunk.
pub mod Types
pub mod Chunks
pub mod Scatter
pub mod RowWise
pub mod Tensors
pub mod Ordered
pub mod Texts
pub mod Aligned
pub mod SparseAligned
pub mod DualAligned
pub mod Toy
mod Tests
use bge_m3_embedding_server.Prelude.{
  ℕ, Option, none, some, List, [], ◌∷◌, length, get_elem?, range_from, Text,
}
use bge_m3_embedding_server.AppError.{Result, ok, err, panic, ◌>>=◌, expect, map_err, ort_err}
use bge_m3_embedding_server.BinPack.{CostModel}
use bge_m3_embedding_server.JitGuard.{TrtJitGuard}
use bge_m3_embedding_server.Runtime.{Runtime, Encoding}
use bge_m3_embedding_server.Scores.{normalize_l2, sparse_project, sparse_maxpool}
use Types.{
  ModelVariant, fp32, fp16, int8, EmbedStats, SparseEmbedding, DualEmbedding, scatter, for_each,
  unwrap_slots,
}
use Chunks.{M, Place, embed_texts}

module _ (rt : Runtime) where
  open rt use {F32, Session, Outputs, Tokenizer}

  -- `lhs.index_axis(Axis(1), 0)`
  unfoldable pub cls_rows : List (List (List F32)) → Result (List (List F32))
  cls_rows [] = ok []
  cls_rows (row ∷ rows) = do v ← expect (get_elem? row 0); vs ← cls_rows rows; ok (v ∷ vs)

  unfoldable pub dense_rows : ModelVariant → Outputs → Result (List (List F32))
  unfolding cls_rows
  dense_rows fp32 out = map_err ort_err (rt.sentence_embedding out)
  dense_rows fp16 out = do lhs ← map_err ort_err (rt.last_hidden_state out); cls_rows lhs
  dense_rows int8 out = do lhs ← map_err ort_err (rt.last_hidden_state out); cls_rows lhs

  unfoldable pub token_rows : ModelVariant → Outputs → Result (List (List (List F32)))
  token_rows fp32 out = map_err ort_err (rt.token_embeddings out)
  token_rows fp16 out = map_err ort_err (rt.last_hidden_state out)
  token_rows int8 out = map_err ort_err (rt.last_hidden_state out)

  -- The dense vector of the row at a position of the chunk.
  unfoldable pub dense_of : List (List F32) → ℕ → Result (List F32)
  dense_of emb chunk_pos = do row ← expect (get_elem? emb chunk_pos); ok (normalize_l2 rt row)

  -- The sparse vector: project each token's hidden state, then max-pool.
  unfoldable pub sparse_of :
      List Encoding → List (List (List F32)) → ℕ → ℕ → Result (SparseEmbedding F32)
  sparse_of encodings token_emb chunk_pos orig_idx = do
    enc ← expect (get_elem? encodings orig_idx)
    batch_hidden ← expect (get_elem? token_emb chunk_pos)
    scores ←
        for_each
          (λ j. do
            hidden ← expect (get_elem? batch_hidden j)
            ok (sparse_project rt hidden rt.sparse_weight rt.sparse_bias))
          (range_from 0 (length enc.ids))
    (indices, values) ← sparse_maxpool rt enc.ids enc.attention_mask scores
    ok (record { indices = indices; values = values })

  unfoldable pub place_dense : ModelVariant → Place rt (List F32)
  unfolding dense_of dense_rows scatter
  place_dense variant encodings chunk out slots = do
    emb ← dense_rows variant out
    scatter (λ chunk_pos orig_idx. dense_of emb chunk_pos) 0 chunk slots

  unfoldable pub embed_dense :
      Tokenizer
      → List Text
      → CostModel rt.floats.Carrier
      → ModelVariant
      → Option TrtJitGuard
      → M rt (List (List F32) × EmbedStats)
  embed_dense tokenizer texts cm variant guard =
      embed_texts rt (place_dense variant) [] tokenizer texts cm guard

  unfoldable pub place_sparse : ModelVariant → Place rt (Option (SparseEmbedding F32))
  unfolding sparse_of token_rows scatter
  place_sparse variant encodings chunk out slots = do
    token_emb ← token_rows variant out
    scatter
        (λ chunk_pos orig_idx. do v ← sparse_of encodings token_emb chunk_pos orig_idx; ok (some v))
        0 chunk slots

  -- The filled slots of a result, whose absence panics.
  unfoldable pub unwrap :
      {T : Type 0} → Result (List (Option T) × EmbedStats) → Result (List T × EmbedStats)
  unwrap r = do (slots, stats) ← r; all ← unwrap_slots slots; ok (all, stats)

  unfoldable pub embed_sparse :
      Tokenizer
      → List Text
      → CostModel rt.floats.Carrier
      → ModelVariant
      → Option TrtJitGuard
      → M rt (List (SparseEmbedding F32) × EmbedStats)
  unfolding unwrap
  embed_sparse tokenizer texts cm variant guard s =
      let (r, s') = embed_texts rt (place_sparse variant) none tokenizer texts cm guard s in
      (unwrap r, s')

  unfoldable pub place_both : ModelVariant → Place rt (Option (DualEmbedding F32))
  unfolding dense_of sparse_of dense_rows token_rows scatter
  place_both variant encodings chunk out slots = do
    dense_emb ← dense_rows variant out
    token_emb ← token_rows variant out
    scatter
        (λ chunk_pos orig_idx. do
          dense ← dense_of dense_emb chunk_pos
          sparse ← sparse_of encodings token_emb chunk_pos orig_idx
          ok (some (record { dense = dense; sparse = sparse })))
        0 chunk slots

  unfoldable pub embed_both :
      Tokenizer
      → List Text
      → CostModel rt.floats.Carrier
      → ModelVariant
      → Option TrtJitGuard
      → M rt (List (DualEmbedding F32) × EmbedStats)
  unfolding unwrap
  embed_both tokenizer texts cm variant guard s =
      let (r, s') = embed_texts rt (place_both variant) none tokenizer texts cm guard s in
      (unwrap r, s')
