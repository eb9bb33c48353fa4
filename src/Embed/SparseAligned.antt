-- ===== src/Embed/SparseAligned.antt =====
-- src/embedder/sparse.rs: the sparse result of each text is pooled of that text alone, whatever it is packed with.
use bge_m3_embedding_server.Prelude.{
  At, At-head, At-tail, At-start, ℕ, zero, suc, ◌-◌, ◌<◌, ◌≡◌, refl, ap, ◌∙◌, Option, some, none,
  List, [], ◌∷◌, ◌++◌, replicate, map, arith, All, All-of_mem, length, get_elem?, get_or,
  range_from, Text,
}
use bge_m3_embedding_server.AppError.{Result, ok, err, panic, ◌>>=◌, expect}
use bge_m3_embedding_server.BinPack.{CostModel, bin_pack}
use bge_m3_embedding_server.JitGuard.{TrtJitGuard, admitted, guard_chunks}
use bge_m3_embedding_server.Runtime.{Runtime, Encoding}
use bge_m3_embedding_server.Tokenize.{pad_id}
use bge_m3_embedding_server.Scores.{sparse_project, sparse_maxpool}
use bge_m3_embedding_server.Scores.Pooled.{sparse_maxpool-IsPooled}
use bge_m3_embedding_server.Embed.Types.{
  ModelVariant, fp32, fp16, int8, EmbedStats, SparseEmbedding, for_each, unwrap_slots,
}
use bge_m3_embedding_server.Embed.Chunks.{chunk_max, lens_of}
use bge_m3_embedding_server.Embed.Scatter.{Rows, scatter-write_all, lt_of_mem_range}
use bge_m3_embedding_server.Embed.RowWise.{Row, Model, Yields, RowWise}
use bge_m3_embedding_server.Embed.Tensors.{
  padded_row, encoding_at, no_encoding, rows_of, IsMasked, IsMasked-at, length-map, All-map,
  get_elem?-get_or,
}
use bge_m3_embedding_server.Embed.{token_rows, sparse_of, place_sparse, unwrap, embed_sparse}
use bge_m3_embedding_server.Embed.Ordered.{Places}
use bge_m3_embedding_server.Embed.Texts.{run-Places, embed_texts-in_order}

for_each-map {ℓ} :
    {T : Type ℓ} (f : ℕ → Result T) (g : ℕ → T) (js : List ℕ)
    → All (λ j. f j ≡ ok (g j)) js
    → for_each f js ≡ ok (map g js)
unfolding for_each
for_each-map f g [] a = refl
for_each-map f g (j ∷ js) a = rw (a.0, for_each-map f g js a.1) refl

pub unwrap_slots-map {ℓ κ} :
    {A : Type ℓ} {T : Type κ} (f : A → T) (xs : List A)
    → unwrap_slots (map (λ x. some (f x)) xs) ≡ ok (map f xs)
unfolding unwrap_slots
unwrap_slots-map f [] = refl
unwrap_slots-map f (x ∷ xs) = rw (unwrap_slots-map f xs) refl

below_range : (n : ℕ) → All (λ j. j < n) (range_from 0 n)
below_range n = All-of_mem _ (λ j h. omega (arith, lt_of_mem_range 0 n j h))

module _ (rt : Runtime) (variant : ModelVariant) (m : Model rt) (laws : RowWise rt variant m) where
  open rt use {F32}

  -- The score of each token of a text by itself.
  abbrev pub scores_of : Encoding → List F32
  scores_of enc =
      map
        (λ j.
          sparse_project rt (get_or (m.hidden (enc.ids, enc.attention_mask)) j []) rt.sparse_weight
            rt.sparse_bias)
        (range_from 0 (length enc.ids))

  abbrev embedding_of : Result (List ℕ × List F32) → SparseEmbedding F32
  embedding_of (ok (indices, values)) = record { indices = indices; values = values }
  embedding_of (err e) = record { indices = []; values = [] }
  embedding_of panic = record { indices = []; values = [] }

  -- The sparse vector of a text by itself.
  abbrev pub sparse_value : Encoding → SparseEmbedding F32
  sparse_value enc = embedding_of (sparse_maxpool rt enc.ids enc.attention_mask (scores_of enc))

  length-range : (i n : ℕ) → length (range_from i n) ≡ n
  length-range i zero = refl
  length-range i (suc n) = ap suc (length-range (suc i) n)

  sparse_maxpool-value :
      (enc : Encoding)
      → IsMasked enc
      → sparse_maxpool rt enc.ids enc.attention_mask (scores_of enc)
        ≡ ok ((sparse_value enc).indices, (sparse_value enc).values)
  sparse_maxpool-value enc masked =
      let (indices, values, run, pooled) =
        sparse_maxpool-IsPooled rt enc.ids enc.attention_mask (scores_of enc)
          (omega (arith, masked))
          (omega (
            arith,
            length-map
                (λ j.
                  sparse_project rt (get_or (m.hidden (enc.ids, enc.attention_mask)) j [])
                    rt.sparse_weight rt.sparse_bias)
                (range_from 0 (length enc.ids)),
            length-range 0 (length enc.ids),
          )) in
      rw run refl

  -- The padding of a row leaves the scores of its tokens.
  scores-padded :
      (enc : Encoding) (k : ℕ)
      → IsMasked enc
      → for_each
          (λ j. do
            hidden ← expect (
                get_elem?
                  (m.hidden (enc.ids ++ replicate k pad_id, enc.attention_mask ++ replicate k 0))
                  j)
            ok (sparse_project rt hidden rt.sparse_weight rt.sparse_bias))
          (range_from 0 (length enc.ids))
        ≡ ok (scores_of enc)
  scores-padded enc k masked =
      let r : Row = (enc.ids, enc.attention_mask) in
      for_each-map _ _ (range_from 0 (length enc.ids)) (
        All-map {P = λ j. j < length enc.ids} {Q = λ j. scored j ≡ ok (own r j)} padded_score
          (range_from 0 (length enc.ids)) (below_range (length enc.ids)))
    where
      own : Row → ℕ → F32
      own r j = sparse_project rt (get_or (m.hidden r) j []) rt.sparse_weight rt.sparse_bias

      scored : ℕ → Result F32
      scored j = do
        hidden ← expect (
            get_elem?
              (m.hidden (enc.ids ++ replicate k pad_id, enc.attention_mask ++ replicate k 0)) j)
        ok (sparse_project rt hidden rt.sparse_weight rt.sparse_bias)

      padded_score :
          (j : ℕ) → j < length enc.ids → scored j ≡ ok (own (enc.ids, enc.attention_mask) j)
      padded_score j h =
          let r : Row = (enc.ids, enc.attention_mask) in
          rw
            (laws.hidden_pad r k j masked h
              ∙ get_elem?-get_or (m.hidden r) j [] (omega (arith, laws.hidden_all r masked)))
            refl

  pub token_rows-hidden :
      (v : ModelVariant) (out : rt.Outputs) (rows : List Row)
      → Yields rt v m out rows
      → token_rows rt v out ≡ ok (map m.hidden rows)
  unfolding token_rows
  token_rows-hidden fp32 out rows y = rw y.1 refl
  token_rows-hidden fp16 out rows y = rw y refl
  token_rows-hidden int8 out rows y = rw y refl

  module _ (encodings : List Encoding) (n : ℕ) where
    -- The row at a position of the chunk, as the text at that position.
    pub sparse_of-value :
        (emb : List (List (List F32))) (pos i : ℕ)
        → All IsMasked encodings
        → i < length encodings
        → get_elem? emb pos ≡ some (m.hidden (padded_row encodings n i))
        → sparse_of rt encodings emb pos i ≡ ok (sparse_value (encoding_at encodings i))
    unfolding sparse_of
    sparse_of-value emb pos i masked inside row =
        rw
          (
            get_elem?-get_or encodings i no_encoding inside,
            row,
            scores-padded (encoding_at encodings i) (n - length (encoding_at encodings i).ids)
                (IsMasked-at encodings i masked),
            sparse_maxpool-value (encoding_at encodings i) (IsMasked-at encodings i masked),
          )
          refl

    sparse_of-Rows :
        (emb : List (List (List F32))) (pos : ℕ) (chunk : List ℕ)
        → All IsMasked encodings
        → All (λ i. i < length encodings) chunk
        → At emb pos (map m.hidden (rows_of encodings n chunk))
        → Rows
            (λ i. some (sparse_value (encoding_at encodings i)))
            (λ k i. do v ← sparse_of rt encodings emb k i; ok (some v))
            pos
            chunk
    sparse_of-Rows emb pos [] masked inside a = tt
    sparse_of-Rows emb pos (i ∷ is) masked inside a = (
      rw (sparse_of-value emb pos i masked inside.0 (At-head emb pos _ _ a)) refl,
      sparse_of-Rows emb (suc pos) is masked inside.1 (At-tail emb pos _ _ a),
    )

  place_sparse-Places :
      (encodings : List Encoding) (chunk : List ℕ)
      → All IsMasked encodings
      → All (λ i. i < length encodings) chunk
      → Places rt
          (λ i. some (sparse_value (encoding_at encodings i)))
          (place_sparse rt variant)
          encodings
          chunk
  unfolding place_sparse
  place_sparse-Places encodings chunk masked inside =
      let n = chunk_max (lens_of encodings) chunk in
      let rows = rows_of encodings n chunk in
      run-Places rt variant m laws (λ i. some (sparse_value (encoding_at encodings i)))
        (place_sparse rt variant) encodings chunk masked inside
        λ out slots yields within. rw (token_rows-hidden variant out rows yields) (
          scatter-write_all (λ i. some (sparse_value (encoding_at encodings i))) _ 0 chunk slots
            (sparse_of-Rows encodings n (map m.hidden rows) 0 chunk masked inside
              (At-start (map m.hidden rows)))
            within)

  -- If the tokenizer gives an encoding for each text, the guard admits the chunks, and the model works row by row, then the
  -- sparse result is the list of the texts' own vectors, in their order: each is the pooling of the scores that the tokens of the
  -- text have without padding.
  pub embed_sparse-in_order :
      (tokenizer : rt.Tokenizer) (texts : List Text) (cm : CostModel rt.floats.Carrier)
      (guard : Option TrtJitGuard) (encodings : List Encoding) (ms : ℕ) (s : rt.Session)
      → rt.encode_batch tokenizer texts ≡ (ok encodings, ms)
      → length encodings ≡ length texts
      → All IsMasked encodings
      → guard_chunks guard (bin_pack rt.floats (lens_of encodings) cm rt.sort) (lens_of encodings)
        ≡ admitted
      → (stats : EmbedStats) × (s' : rt.Session) × (embed_sparse rt tokenizer texts cm variant guard
            s
          ≡ (ok (map sparse_value encodings, stats), s'))
  unfolding embed_sparse unwrap
  embed_sparse-in_order tokenizer texts cm guard encodings ms s tokenized counted masked admits =
      let (stats, s', all) =
        embed_texts-in_order rt (λ enc. some (sparse_value enc)) (place_sparse rt variant) none
          tokenizer texts cm guard encodings ms s tokenized counted admits
          λ chunk inside. place_sparse-Places encodings chunk masked inside in
      (stats, s', rw (all, unwrap_slots-map sparse_value encodings) refl)
