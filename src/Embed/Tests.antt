-- ===== src/Embed/Tests.antt =====
-- The embedding functions on a small model.
use bge_m3_embedding_server.Prelude.{
  arith, ℕ, ◌≡◌, refl, some, List, [], ◌∷◌, map, length, replicate, Text, insertion, insertion_sort,
}
use bge_m3_embedding_server.Prelude.Floats.{whole}
use bge_m3_embedding_server.AppError.{ok}
use bge_m3_embedding_server.BinPack.{
  CostModel, bin_pack, pack_sorted, pack_step, flush, fits, chunk_cost,
}
use bge_m3_embedding_server.JitGuard.{
  TrtJitGuard, admitted, rejected, guard_chunks, guard_each, admit,
}
use bge_m3_embedding_server.Runtime.{Encoding}
use bge_m3_embedding_server.Embed.Types.{fp32, fp16, int8, EmbedStats}
use bge_m3_embedding_server.Embed.Chunks.{lens_of}
use bge_m3_embedding_server.Embed.Aligned.{embed_dense-in_order, dense_value}
use bge_m3_embedding_server.Embed.SparseAligned.{embed_sparse-in_order, sparse_value}
use bge_m3_embedding_server.Embed.DualAligned.{embed_both-in_order, dual_value}
use bge_m3_embedding_server.Embed.{embed_dense, embed_sparse, embed_both}
use bge_m3_embedding_server.Embed.Toy.{
  toy, toy_model, toy-RowWise, toy_first, toy_first-RowWise, toy_first-RowWise_int8,
}

abbrev texts : List Text
texts = (5 ∷ 6 ∷ 7 ∷ []) ∷ (9 ∷ []) ∷ (4 ∷ 4 ∷ []) ∷ []

abbrev encoded : List Encoding
encoded = map (λ text. record { ids = text; attention_mask = replicate (length text) 1 }) texts

-- Six token positions fit a chunk.
abbrev small : CostModel ℕ
small = record { a = 1; b = 0; max_workspace_bytes = 5 }

abbrev lenient : TrtJitGuard
lenient = record { guard_seq = 2; warmed_seq_ceiling = 4 }

abbrev strict : TrtJitGuard
strict = record { guard_seq = 2; warmed_seq_ceiling = 2 }

lenient-admits :
    guard_chunks (some lenient) (bin_pack whole (lens_of encoded) small insertion) (lens_of encoded)
    ≡ admitted
unfolding bin_pack pack_sorted pack_step flush fits chunk_cost insertion_sort guard_chunks
    guard_each admit
lenient-admits = refl

strict-refuses :
    guard_chunks (some strict) (bin_pack whole (lens_of encoded) small insertion) (lens_of encoded)
    ≡ rejected (record { batch = 1; seq = 3; guard_seq = 2; warmed_seq_ceiling = 2 })
unfolding bin_pack pack_sorted pack_step flush fits chunk_cost insertion_sort guard_chunks
    guard_each admit
strict-refuses = refl

-- The default variant, whose dense vector is the first hidden state.
embed_dense-in_order_example :
    (stats : EmbedStats) × (s' : ℕ) × (embed_dense toy tt texts small fp16 (some lenient) 0
      ≡ (ok (map (dense_value toy fp16 toy_first toy_first-RowWise) encoded, stats), s'))
embed_dense-in_order_example =
    embed_dense-in_order toy fp16 toy_first toy_first-RowWise tt texts small (some lenient) encoded
      3 0 refl refl (refl, (refl, (refl, tt))) (omega arith, (omega arith, (omega arith, tt)))
      lenient-admits

embed_sparse-in_order_example :
    (stats : EmbedStats) × (s' : ℕ) × (embed_sparse toy tt texts small fp16 (some lenient) 0
      ≡ (ok (map (sparse_value toy fp16 toy_first toy_first-RowWise) encoded, stats), s'))
embed_sparse-in_order_example =
    embed_sparse-in_order toy fp16 toy_first toy_first-RowWise tt texts small (some lenient) encoded
      3 0 refl refl (refl, (refl, (refl, tt))) lenient-admits

embed_both-in_order_example :
    (stats : EmbedStats) × (s' : ℕ) × (embed_both toy tt texts small fp16 (some lenient) 0
      ≡ (ok (map (dual_value toy fp16 toy_first toy_first-RowWise) encoded, stats), s'))
embed_both-in_order_example =
    embed_both-in_order toy fp16 toy_first toy_first-RowWise tt texts small (some lenient) encoded 3
      0 refl refl (refl, (refl, (refl, tt))) (omega arith, (omega arith, (omega arith, tt)))
      lenient-admits

-- The variant with a pooled output.
both_fp32 :
    (stats : EmbedStats) × (s' : ℕ) × (embed_both toy tt texts small fp32 (some lenient) 0
      ≡ (ok (map (dual_value toy fp32 toy_model toy-RowWise) encoded, stats), s'))
both_fp32 =
    embed_both-in_order toy fp32 toy_model toy-RowWise tt texts small (some lenient) encoded 3 0
      refl refl (refl, (refl, (refl, tt))) (omega arith, (omega arith, (omega arith, tt)))
      lenient-admits

both_int8 :
    (stats : EmbedStats) × (s' : ℕ) × (embed_both toy tt texts small int8 (some lenient) 0
      ≡ (ok (map (dual_value toy int8 toy_first toy_first-RowWise_int8) encoded, stats), s'))
both_int8 =
    embed_both-in_order toy int8 toy_first toy_first-RowWise_int8 tt texts small (some lenient)
      encoded 3 0 refl refl (refl, (refl, (refl, tt)))
      (omega arith, (omega arith, (omega arith, tt))) lenient-admits
