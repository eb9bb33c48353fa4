-- ===== src/Embed/DualAligned.antt =====
-- src/embedder/dual.rs: both results of each text are those of that text alone.
use bge_m3_embedding_server.Prelude.{
  At, At-head, At-tail, At-start, ℕ, suc, ◌<◌, ◌≡◌, refl, some, none, Option, List, [], ◌∷◌, map,
  All, length, Text,
}
use bge_m3_embedding_server.AppError.{ok, ◌>>=◌}
use bge_m3_embedding_server.BinPack.{CostModel, bin_pack}
use bge_m3_embedding_server.JitGuard.{TrtJitGuard, admitted, guard_chunks}
use bge_m3_embedding_server.Runtime.{Runtime, Encoding}
use bge_m3_embedding_server.Embed.Types.{ModelVariant, EmbedStats, DualEmbedding}
use bge_m3_embedding_server.Embed.Chunks.{chunk_max, lens_of}
use bge_m3_embedding_server.Embed.Scatter.{Rows, scatter-write_all}
use bge_m3_embedding_server.Embed.RowWise.{Model, RowWise}
use bge_m3_embedding_server.Embed.Tensors.{encoding_at, rows_of, IsMasked, HasTokens}
use bge_m3_embedding_server.Embed.{dense_of, sparse_of, place_both, unwrap, embed_both}
use bge_m3_embedding_server.Embed.Ordered.{Places}
use bge_m3_embedding_server.Embed.Texts.{run-Places, embed_texts-in_order}
use bge_m3_embedding_server.Embed.Aligned.{
  chunk-HasTokens, rows_of-tokens, dense_value, dense_rows-pooled, dense_of-value,
}
use bge_m3_embedding_server.Embed.SparseAligned.{
  sparse_value, token_rows-hidden, sparse_of-value, unwrap_slots-map,
}

module _ (rt : Runtime) (variant : ModelVariant) (m : Model rt) (laws : RowWise rt variant m) where
  -- Both results of a text by itself.
  abbrev pub dual_value : Encoding → DualEmbedding rt.F32
  dual_value enc = record {
    dense = dense_value rt variant m laws enc;
    sparse = sparse_value rt variant m laws enc;
  }

  module _ (encodings : List Encoding) (n : ℕ) where
    both-Rows :
        (dense_emb : List (List rt.F32)) (token_emb : List (List (List rt.F32))) (pos : ℕ)
        (chunk : List ℕ)
        → All IsMasked encodings
        → All (λ i. HasTokens (encoding_at encodings i)) chunk
        → All (λ i. i < length encodings) chunk
        → At dense_emb pos (map m.pooled (rows_of encodings n chunk))
        → At token_emb pos (map m.hidden (rows_of encodings n chunk))
        → Rows
            (λ i. some (dual_value (encoding_at encodings i)))
            (λ k i. do
              dense ← dense_of rt dense_emb k
              sparse ← sparse_of rt encodings token_emb k i
              ok (some (record { dense = dense; sparse = sparse })))
            pos
            chunk
    both-Rows dense_emb token_emb pos [] masked tokens inside a b = tt
    both-Rows dense_emb token_emb pos (i ∷ is) masked tokens inside a b = (
      rw
          (
            dense_of-value rt variant m laws encodings n dense_emb pos i masked tokens.0
                (At-head dense_emb pos _ _ a),
            sparse_of-value rt variant m laws encodings n token_emb pos i masked inside.0
                (At-head token_emb pos _ _ b),
          )
          refl,
      both-Rows dense_emb token_emb (suc pos) is masked tokens.1 inside.1
          (At-tail dense_emb pos _ _ a) (At-tail token_emb pos _ _ b),
    )

  place_both-Places :
      (encodings : List Encoding) (chunk : List ℕ)
      → All IsMasked encodings
      → All HasTokens encodings
      → All (λ i. i < length encodings) chunk
      → Places rt
          (λ i. some (dual_value (encoding_at encodings i)))
          (place_both rt variant)
          encodings
          chunk
  unfolding place_both
  place_both-Places encodings chunk masked tokens inside =
      let all_tokens = chunk-HasTokens rt variant m laws encodings chunk tokens inside in
      let n = chunk_max (lens_of encodings) chunk in
      let rows = rows_of encodings n chunk in
      run-Places rt variant m laws (λ i. some (dual_value (encoding_at encodings i)))
        (place_both rt variant) encodings chunk masked inside
        λ out slots yields within.
          rw
            (
              dense_rows-pooled rt variant m laws variant laws out rows
                  (rows_of-tokens rt variant m laws encodings n chunk masked all_tokens) yields,
              token_rows-hidden rt variant m laws variant out rows yields,
            )
            (scatter-write_all (λ i. some (dual_value (encoding_at encodings i))) _ 0 chunk slots
              (both-Rows encodings n (map m.pooled rows) (map m.hidden rows) 0 chunk masked
                all_tokens inside (At-start (map m.pooled rows)) (At-start (map m.hidden rows)))
              within)

  -- If the tokenizer gives an encoding with a token at least for each text, the guard admits the chunks, and the model works row by row, then one
  -- request for both results gives for each text, in their order, the very dense vector and the very sparse vector that the
  -- text has by itself.
  pub embed_both-in_order :
      (tokenizer : rt.Tokenizer) (texts : List Text) (cm : CostModel rt.floats.Carrier)
      (guard : Option TrtJitGuard) (encodings : List Encoding) (ms : ℕ) (s : rt.Session)
      → rt.encode_batch tokenizer texts ≡ (ok encodings, ms)
      → length encodings ≡ length texts
      → All IsMasked encodings
      → All HasTokens encodings
      → guard_chunks guard (bin_pack rt.floats (lens_of encodings) cm rt.sort) (lens_of encodings)
        ≡ admitted
      → (stats : EmbedStats) × (s' : rt.Session) × (embed_both rt tokenizer texts cm variant guard s
          ≡ (ok (map dual_value encodings, stats), s'))
  unfolding embed_both unwrap
  embed_both-in_order tokenizer texts cm guard encodings ms s tokenized counted masked tokens
        admits =
      let (stats, s', all) =
        embed_texts-in_order rt (λ enc. some (dual_value enc)) (place_both rt variant) none
          tokenizer texts cm guard encodings ms s tokenized counted admits
          λ chunk inside. place_both-Places encodings chunk masked tokens inside in
      (stats, s', rw (all, unwrap_slots-map dual_value encodings) refl)
