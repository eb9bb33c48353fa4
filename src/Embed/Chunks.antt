-- ===== src/Embed/Chunks.antt =====
-- What src/embedder/dense.rs, sparse.rs and dual.rs share: tokenize, pack into chunks, ask the
-- guard, and run the chunks in order.
use bge_m3_embedding_server.Prelude.{
  ℕ, max, Option, List, [], ◌∷◌, map, length, replicate, longest, Text,
}
use bge_m3_embedding_server.AppError.{Result, ok, err, panic, ◌>>=◌, map_err, ort_err}
use bge_m3_embedding_server.BinPack.{CostModel, bin_pack}
use bge_m3_embedding_server.JitGuard.{
  TrtJitGuard, admitted, rejected, guard_chunks, rejection_error,
}
use bge_m3_embedding_server.Runtime.{Runtime, Encoding}
use bge_m3_embedding_server.Tokenize.{tokenize_no_pad, build_chunk_arrays}
use bge_m3_embedding_server.Scores.{seq_len_distribution, sum}
use bge_m3_embedding_server.Embed.Types.{EmbedStats, Progress, saturating_add_u64}

-- `chunk_indices.iter().map(|&i| seq_lens[i]).max().unwrap_or(1).max(1)`
abbrev pub chunk_max : List ℕ → List ℕ → ℕ
chunk_max seq_lens chunk = max (longest seq_lens chunk) 1

abbrev pub lens_of : List Encoding → List ℕ
lens_of encodings = map (λ e. length e.ids) encodings

module _ (rt : Runtime) where
  open rt use {F32, Session, Outputs, Tokenizer, run}

  -- What uses the session returns it, also on an error.
  abbrev pub M : Type 0 → Type 0
  M A = Session → Result A × Session

  -- Build the tensors of a chunk and run the session on them.
  unfoldable pub run_chunk : List Encoding → List ℕ → List ℕ → M (Outputs × ℕ)
  run_chunk encodings seq_lens chunk s =
      elim (build_chunk_arrays rt encodings chunk (chunk_max seq_lens chunk)) [
        | err e ↦ (err e, s)
        | panic ↦ (panic, s)
        | ok (ids, mask) ↦
            let ((r, ms), s') = run s ids mask in ((do out ← map_err ort_err r; ok (out, ms)), s')
      ]

  -- The rest of a chunk's iteration: `place` is what one of the three functions does with the
  -- outputs.
  abbrev pub Place : Type 0 → Type 0
  Place T = List Encoding → List ℕ → Outputs → List T → Result (List T)

  unfoldable pub finish_chunk :
      {T : Type 0}
      → Place T
      → List Encoding
      → List ℕ
      → List ℕ
      → Progress T
      → Result (Outputs × ℕ)
      → Result (Progress T)
  finish_chunk place encodings seq_lens chunk p r = do
    (outputs, chunk_ms) ← r
    slots ← place encodings chunk outputs p.slots
    ok (record {
      slots = slots;
      max_chunk_seq = max p.max_chunk_seq (chunk_max seq_lens chunk);
      inference_ms = saturating_add_u64 p.inference_ms chunk_ms;
    })

  unfoldable pub run_chunks :
      {T : Type 0} → Place T → List Encoding → List ℕ → List (List ℕ) → Progress T → M (Progress T)
  run_chunks place encodings seq_lens [] p s = (ok p, s)
  run_chunks place encodings seq_lens (chunk ∷ chunks) p s =
      let (r, s') = run_chunk encodings seq_lens chunk s in
      elim (finish_chunk place encodings seq_lens chunk p r) [
        | ok p' ↦ run_chunks place encodings seq_lens chunks p' s'
        | err e ↦ (err e, s')
        | panic ↦ (panic, s')
      ]

  unfoldable pub embed_stats : List ℕ → ℕ → ℕ → Progress (Unit {0}) → EmbedStats
  embed_stats seq_lens chunk_count tokenize_ms p =
      let d = seq_len_distribution rt.sort seq_lens in
      record {
        chunks = chunk_count;
        max_chunk_seq = p.max_chunk_seq;
        total_token_positions = sum seq_lens;
        tokenize_ms = tokenize_ms;
        inference_ms = p.inference_ms;
        seq_len_min = d.shortest;
        seq_len_max = d.longest;
        seq_len_mean = d.mean;
        seq_len_p95 = d.p95;
      }

  -- Pack, ask the guard, and run the chunks in order.
  unfoldable pub embed_encoded :
      {T : Type 0}
      → Place T
      → T
      → ℕ
      → CostModel rt.floats.Carrier
      → Option TrtJitGuard
      → List Encoding
      → ℕ
      → M (List T × EmbedStats)
  unfolding embed_stats
  embed_encoded place empty_slot text_count cm guard encodings tokenize_ms s =
      let seq_lens = lens_of encodings in
      let chunks = bin_pack rt.floats seq_lens cm rt.sort in
      elim (guard_chunks guard chunks seq_lens) [
        | rejected r ↦ (err (rejection_error r), s)
        | admitted ↦
            let start : Progress _ = record {
              slots = replicate text_count empty_slot;
              max_chunk_seq = 0;
              inference_ms = 0;
            } in
            let (r, s') = run_chunks place encodings seq_lens chunks start s in
            (
              (do
                p ← r
                ok (
                  p.slots,
                  embed_stats seq_lens (length chunks) tokenize_ms (record {
                    slots = [];
                    max_chunk_seq = p.max_chunk_seq;
                    inference_ms = p.inference_ms;
                  }),
                )),
              s',
            )
      ]

  unfoldable pub embed_texts :
      {T : Type 0}
      → Place T
      → T
      → Tokenizer
      → List Text
      → CostModel rt.floats.Carrier
      → Option TrtJitGuard
      → M (List T × EmbedStats)
  embed_texts place empty_slot tokenizer texts cm guard s =
      let (r, tokenize_ms) = tokenize_no_pad rt tokenizer texts in
      elim r [
        | err e ↦ (err e, s)
        | panic ↦ (panic, s)
        | ok encodings ↦
            embed_encoded place empty_slot (length texts) cm guard encodings tokenize_ms s
      ]
