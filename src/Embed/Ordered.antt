-- ===== src/Embed/Ordered.antt =====
-- src/embedder/dense.rs: the chunks of a request fill the slots of its texts, in order.
use bge_m3_embedding_server.Prelude.{
  ℕ, max, ◌≡◌, refl, sym, ◌∙◌, Option, List, [], ◌∷◌, map, flatten, All, length, replicate,
  range_from,
}
use bge_m3_embedding_server.AppError.{ok}
use bge_m3_embedding_server.BinPack.{CostModel, bin_pack}
use bge_m3_embedding_server.BinPack.Partition.{bin_pack-perm}
use bge_m3_embedding_server.JitGuard.{TrtJitGuard, admitted, guard_chunks}
use bge_m3_embedding_server.Runtime.{Runtime, Encoding}
use bge_m3_embedding_server.Embed.Types.{EmbedStats, Progress, saturating_add_u64}
use bge_m3_embedding_server.Embed.Chunks.{
  Place, chunk_max, lens_of, run_chunk, finish_chunk, run_chunks, embed_encoded, embed_stats,
}
use bge_m3_embedding_server.Embed.Scatter.{
  write_all, length-write_all, write_all-append, write_all-perm,
}
use bge_m3_embedding_server.Embed.Tensors.{length-replicate, length-map}

-- What the outputs of a chunk's run must give: each slot of the chunk gets its text's value.
abbrev pub Places :
    (rt : Runtime) {T : Type 0} → (ℕ → T) → Place rt T → List Encoding → List ℕ → Type 0
Places rt g place encodings chunk =
    (s : rt.Session) (slots : List _)
    → length slots ≡ length encodings
    → (out : rt.Outputs) × (ms : ℕ) × (s' : rt.Session) × (run_chunk rt encodings
          (lens_of encodings) chunk s
        ≡ (ok (out, ms), s'))
      × (place encodings chunk out slots ≡ ok (write_all g chunk slots))

module _ (rt : Runtime) {T : Type 0} (g : ℕ → T) (place : Place rt T)
    (encodings : List Encoding) where
  -- The variables after a chunk that took `ms`.
  after_chunk : List ℕ → ℕ → Progress T → Progress T
  after_chunk c ms p = record {
    slots = write_all g c p.slots;
    max_chunk_seq = max p.max_chunk_seq (chunk_max (lens_of encodings) c);
    inference_ms = saturating_add_u64 p.inference_ms ms;
  }

  run_chunks-step :
      (c : List ℕ) (cs : List (List ℕ)) (p : Progress T) (s : rt.Session)
      → (out : rt.Outputs) (ms : ℕ) (s' : rt.Session)
      → run_chunk rt encodings (lens_of encodings) c s ≡ (ok (out, ms), s')
      → place encodings c out p.slots ≡ ok (write_all g c p.slots)
      → run_chunks rt place encodings (lens_of encodings) (c ∷ cs) p s
        ≡ run_chunks rt place encodings (lens_of encodings) cs (after_chunk c ms p) s'
  unfolding run_chunks finish_chunk after_chunk
  run_chunks-step c cs p s out ms s' ran placed = rw (ran, placed, run_chunks) (rw ran)

  -- If each chunk places the values of its texts, the loop writes those of all chunks.
  run_chunks-write_all :
      (chunks : List (List ℕ))
      → All (Places rt g place encodings) chunks
      → (p : Progress T) (s : rt.Session) → length p.slots ≡ length encodings
      → (p' : Progress T) × (s' : rt.Session) × (run_chunks rt place encodings
            (lens_of encodings)
            chunks
            p
            s
          ≡ (ok p', s'))
        × (p'.slots ≡ write_all g (flatten chunks) p.slots)
  unfolding flatten after_chunk run_chunks
  run_chunks-write_all [] a p s e = (p, s, refl, refl)
  run_chunks-write_all (c ∷ cs) a p s e =
      let (out, ms, s1, ran, placed) = a.0 s p.slots e in
      let (p', s', rest, written) =
        run_chunks-write_all cs a.1 (after_chunk c ms p) s1 (length-write_all g c p.slots ∙ e) in
      (
        p',
        s',
        run_chunks-step c cs p s out ms s1 ran placed ∙ rest,
        written ∙ sym (write_all-append g c (flatten cs) p.slots),
      )

  -- So the whole batch comes back in the order of the texts.
  pub embed_encoded-in_order :
      (cm : CostModel rt.floats.Carrier) (guard : Option TrtJitGuard) (tokenize_ms : ℕ) (empty : T)
      → let chunks = bin_pack rt.floats (lens_of encodings) cm rt.sort in
        All (Places rt g place encodings) chunks
        → guard_chunks guard chunks (lens_of encodings) ≡ admitted
        → (s : rt.Session)
        → (stats : EmbedStats) × (s' : rt.Session) × (embed_encoded rt place empty
              (length encodings)
              cm
              guard
              encodings
              tokenize_ms
              s
            ≡ (ok (map g (range_from 0 (length encodings)), stats), s'))
  unfolding embed_encoded
  embed_encoded-in_order cm guard tokenize_ms empty a admits s =
      let chunks = bin_pack rt.floats (lens_of encodings) cm rt.sort in
      let start : Progress T = record {
        slots = replicate (length encodings) empty;
        max_chunk_seq = 0;
        inference_ms = 0;
      } in
      let (p', s', ran, written) =
        run_chunks-write_all chunks a start s (length-replicate (length encodings) empty) in
      let filled : p'.slots ≡ map g (range_from 0 (length encodings)) =
        written
        ∙ write_all-perm g (flatten chunks) _ (length encodings)
            (length-replicate (length encodings) empty)
            (rw (length-map (λ e. length e.ids) encodings) at
              (bin_pack-perm rt.floats (lens_of encodings) cm rt.sort)) in
      (
        embed_stats rt (lens_of encodings) (length chunks) tokenize_ms (record {
          slots = [];
          max_chunk_seq = p'.max_chunk_seq;
          inference_ms = p'.inference_ms;
        }),
        s',
        rw (admits, ran, filled, embed_encoded),
      )
