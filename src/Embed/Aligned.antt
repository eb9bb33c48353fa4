-- ===== src/Embed/Aligned.antt =====
-- The dense result of each text is the model's vector of that text alone: neither packing nor
-- padding nor the order of the chunks shows.
use bge_m3_embedding_server.Prelude.{
  At, At-head, At-tail, At-start, ℕ, suc, ◌<◌, ◌≡◌, refl, Option, some, List, [], ◌∷◌, map, All,
  length, get_elem?, Text,
}
use bge_m3_embedding_server.AppError.{ok}
use bge_m3_embedding_server.BinPack.{CostModel, bin_pack}
use bge_m3_embedding_server.JitGuard.{TrtJitGuard, admitted, guard_chunks}
use bge_m3_embedding_server.Runtime.{Runtime, Encoding}
use bge_m3_embedding_server.Scores.{normalize_l2}
use bge_m3_embedding_server.Embed.Types.{ModelVariant, fp32, fp16, int8, EmbedStats}
use bge_m3_embedding_server.Embed.Chunks.{chunk_max, lens_of}
use bge_m3_embedding_server.Embed.Scatter.{Rows, scatter-write_all}
use bge_m3_embedding_server.Embed.RowWise.{Row, Model, Yields, RowWise}
use bge_m3_embedding_server.Embed.Tensors.{
  All-map, HasTokens, HasTokens-at, padded_row-tokens, encoding_at, padded_row, rows_of, IsMasked,
  IsMasked-at,
}
use bge_m3_embedding_server.Embed.{cls_rows, dense_rows, dense_of, place_dense, embed_dense}
use bge_m3_embedding_server.Embed.Ordered.{Places}
use bge_m3_embedding_server.Embed.Texts.{run-Places, embed_texts-in_order}

module _ (rt : Runtime) (variant : ModelVariant) (m : Model rt) (laws : RowWise rt variant m) where
  -- The vector of a text by itself.
  abbrev pub dense_value : Encoding → List rt.F32
  dense_value enc = normalize_l2 rt (m.pooled (enc.ids, enc.attention_mask))

  cls_rows-pooled :
      (rows : List Row)
      → All (λ r. get_elem? (m.hidden r) 0 ≡ some (m.pooled r)) rows
      → cls_rows rt (map m.hidden rows) ≡ ok (map m.pooled rows)
  unfolding cls_rows
  cls_rows-pooled [] h = refl
  cls_rows-pooled (r ∷ rs) h = rw (h.0, cls_rows-pooled rs h.1)

  pub dense_rows-pooled :
      (v : ModelVariant)
      → RowWise rt v m
      → (out : rt.Outputs) (rows : List Row)
      → All (λ r. (0 < length r.0) × (length r.1 ≡ length r.0)) rows
      → Yields rt v m out rows
      → dense_rows rt v out ≡ ok (map m.pooled rows)
  unfolding dense_rows
  dense_rows-pooled fp32 w out rows t y = rw y.0
  dense_rows-pooled fp16 w out rows t y =
      rw y (cls_rows-pooled rows (All-map (λ r h. w.pools_first r h.0 h.1) rows t))
  dense_rows-pooled int8 w out rows t y =
      rw y (cls_rows-pooled rows (All-map (λ r h. w.pools_first r h.0 h.1) rows t))

  module _ (encodings : List Encoding) (n : ℕ) where
    -- The row at a position of the chunk is the padded text, whose vector the padding leaves.
    pub dense_of-value :
        (emb : List (List rt.F32)) (pos i : ℕ)
        → All IsMasked encodings
        → HasTokens (encoding_at encodings i)
        → get_elem? emb pos ≡ some (m.pooled (padded_row encodings n i))
        → dense_of rt emb pos ≡ ok (dense_value (encoding_at encodings i))
    unfolding dense_of
    dense_of-value emb pos i masked tokens row =
        rw (row, laws.pooled_pad (_, _) _ tokens (IsMasked-at encodings i masked)) refl

    dense_of-Rows :
        (emb : List (List rt.F32)) (pos : ℕ) (chunk : List ℕ)
        → All IsMasked encodings
        → All (λ i. HasTokens (encoding_at encodings i)) chunk
        → At emb pos (map m.pooled (rows_of encodings n chunk))
        → Rows (λ i. dense_value (encoding_at encodings i)) (λ k i. dense_of rt emb k) pos chunk
    dense_of-Rows emb pos [] masked tokens a = tt
    dense_of-Rows emb pos (i ∷ is) masked tokens a = (
      dense_of-value emb pos i masked tokens.0 (At-head emb pos _ _ a),
      dense_of-Rows emb (suc pos) is masked tokens.1 (At-tail emb pos _ _ a),
    )

  -- The rows of a chunk have tokens, and so have its texts.
  pub chunk-HasTokens :
      (encodings : List Encoding) (chunk : List ℕ)
      → All HasTokens encodings
      → All (λ i. i < length encodings) chunk
      → All (λ i. HasTokens (encoding_at encodings i)) chunk
  chunk-HasTokens encodings chunk tokens inside =
      All-map (λ i h. HasTokens-at encodings i tokens h) chunk inside

  pub rows_of-tokens :
      (encodings : List Encoding) (n : ℕ) (chunk : List ℕ)
      → All IsMasked encodings
      → All (λ i. HasTokens (encoding_at encodings i)) chunk
      → All (λ r. (0 < length r.0) × (length r.1 ≡ length r.0)) (rows_of encodings n chunk)
  rows_of-tokens encodings n [] masked tokens = tt
  rows_of-tokens encodings n (i ∷ is) masked tokens = (
    padded_row-tokens encodings n i (IsMasked-at encodings i masked) tokens.0,
    rows_of-tokens encodings n is masked tokens.1,
  )

  place_dense-Places :
      (encodings : List Encoding) (chunk : List ℕ)
      → All IsMasked encodings
      → All HasTokens encodings
      → All (λ i. i < length encodings) chunk
      → Places rt
          (λ i. dense_value (encoding_at encodings i))
          (place_dense rt variant)
          encodings
          chunk
  unfolding place_dense
  place_dense-Places encodings chunk masked tokens inside =
      let all_tokens = chunk-HasTokens encodings chunk tokens inside in
      let n = chunk_max (lens_of encodings) chunk in
      let rows = rows_of encodings n chunk in
      run-Places rt variant m laws (λ i. dense_value (encoding_at encodings i))
        (place_dense rt variant) encodings chunk masked inside
        λ out slots yields within.
          rw
            (dense_rows-pooled variant laws out rows
              (rows_of-tokens encodings n chunk masked all_tokens) yields)
            (scatter-write_all (λ i. dense_value (encoding_at encodings i)) _ 0 chunk slots
              (dense_of-Rows encodings n (map m.pooled rows) 0 chunk masked all_tokens
                (At-start (map m.pooled rows)))
              within)

  -- If the tokenizer gives an encoding with a token at least for each text, the guard admits the chunks, and the model
  -- works row by row, then the dense result is the list of the texts' own vectors, in their order.
  pub embed_dense-in_order :
      (tokenizer : rt.Tokenizer) (texts : List Text) (cm : CostModel rt.floats.Carrier)
      (guard : Option TrtJitGuard) (encodings : List Encoding) (ms : ℕ) (s : rt.Session)
      → rt.encode_batch tokenizer texts ≡ (ok encodings, ms)
      → length encodings ≡ length texts
      → All IsMasked encodings
      → All HasTokens encodings
      → guard_chunks guard (bin_pack rt.floats (lens_of encodings) cm rt.sort) (lens_of encodings)
        ≡ admitted
      → (stats : EmbedStats) × (s' : rt.Session) × (embed_dense rt tokenizer texts cm variant guard
            s
          ≡ (ok (map dense_value encodings, stats), s'))
  unfolding embed_dense
  embed_dense-in_order tokenizer texts cm guard encodings ms s tokenized counted masked tokens
        admits =
      embed_texts-in_order rt dense_value (place_dense rt variant) [] tokenizer texts cm guard
        encodings ms s tokenized counted admits
        λ chunk inside. place_dense-Places encodings chunk masked tokens inside
