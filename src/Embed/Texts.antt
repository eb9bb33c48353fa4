-- ===== src/Embed/Texts.antt =====
-- src/embedder: from the runs of the chunks to the results of the texts, for any kind of result.
use mathlib.Core.List.Perm
use bge_m3_embedding_server.Prelude.{
  ℕ, zero, suc, ◌<◌, ◌≡◌, refl, sym, ap, ◌∙◌, Option, some, List, [], ◌∷◌, map, flatten, Mem, Perm,
  arith, All, All-of_mem, All-of_flatten, length, get_elem?, range_from, Text,
}
use bge_m3_embedding_server.AppError.{ok}
use bge_m3_embedding_server.BinPack.{CostModel, bin_pack}
use bge_m3_embedding_server.BinPack.Partition.{bin_pack-perm}
use bge_m3_embedding_server.JitGuard.{TrtJitGuard, admitted, guard_chunks}
use bge_m3_embedding_server.Runtime.{Runtime, Encoding}
use bge_m3_embedding_server.Tokenize.{tokenize_no_pad}
use bge_m3_embedding_server.Embed.Types.{ModelVariant, EmbedStats}
use bge_m3_embedding_server.Embed.Chunks.{
  Place, chunk_max, lens_of, run_chunk, embed_encoded, embed_texts,
}
use bge_m3_embedding_server.Embed.Scatter.{write_all, lt_of_mem_range, list_of_elems}
use bge_m3_embedding_server.Embed.RowWise.{Model, Yields, RowWise}
use bge_m3_embedding_server.Embed.Tensors.{
  encoding_at, rows_of, IsMasked, build_chunk_arrays-rows, length-map, All-map,
}
use bge_m3_embedding_server.Embed.Ordered.{Places, embed_encoded-in_order}

-- Every chunk of `bin_pack` holds indices of texts.
pub bin_pack-inside :
    (rt : Runtime) (encodings : List Encoding) (cm : CostModel rt.floats.Carrier)
    → All (All (λ i. i < length encodings)) (bin_pack rt.floats (lens_of encodings) cm rt.sort)
bin_pack-inside rt encodings cm =
    All-of_flatten (λ i. i < length encodings) (bin_pack rt.floats (lens_of encodings) cm rt.sort)
      (All-of_mem _ (λ j h. below_length j (Perm.subset counted j h)))
  where
    counted :
        Perm
          (flatten (bin_pack rt.floats (lens_of encodings) cm rt.sort))
          (range_from 0 (length encodings))
    counted =
        rw (length-map (λ e. length e.ids) encodings) at
          (bin_pack-perm rt.floats (lens_of encodings) cm rt.sort)

    below_length : (j : ℕ) → Mem j (range_from 0 (length encodings)) → j < length encodings
    below_length j h = omega (arith, lt_of_mem_range 0 (length encodings) j h)

get_elem?-map {ℓ} :
    {B : Type ℓ} (f : Encoding → B) (encodings : List Encoding) (j : ℕ)
    → j < length encodings
    → get_elem? (map f encodings) j ≡ some (f (encoding_at encodings j))
get_elem?-map f [] j h = absurd (omega arith)
get_elem?-map f (e ∷ es) zero h = refl
get_elem?-map f (e ∷ es) (suc j) h = get_elem?-map f es j (omega arith)

pub map-encoding_at {ℓ} :
    {B : Type ℓ} (f : Encoding → B) (encodings : List Encoding)
    → map (λ i. f (encoding_at encodings i)) (range_from 0 (length encodings)) ≡ map f encodings
map-encoding_at f encodings = sym (
    list_of_elems (λ i. f (encoding_at encodings i)) (map f encodings) 0 (length encodings)
      (length-map f encodings)
      (λ j h.
        get_elem?-map f encodings j h ∙ ap (λ i. some (f (encoding_at encodings i))) (omega arith)))

pub embed_texts-ok :
    (rt : Runtime) {T : Type 0} (place : Place rt T) (empty : T) (tokenizer : rt.Tokenizer)
    (texts : List Text) (cm : CostModel rt.floats.Carrier) (guard : Option TrtJitGuard)
    (encodings : List Encoding) (ms : ℕ) (s : rt.Session)
    → rt.encode_batch tokenizer texts ≡ (ok encodings, ms)
    → embed_texts rt place empty tokenizer texts cm guard s
      ≡ embed_encoded rt place empty (length texts) cm guard encodings ms s
unfolding embed_texts tokenize_no_pad
embed_texts-ok rt place empty tokenizer texts cm guard encodings ms s e =
    rw (e, embed_texts, tokenize_no_pad) (rw e)

module _ (rt : Runtime) (variant : ModelVariant) (m : Model rt) (laws : RowWise rt variant m) where
  -- The run of a chunk yields the outputs of its rows, of which the place fills the slots.
  pub run-Places :
      {T : Type 0} (g : ℕ → T) (place : Place rt T) (encodings : List Encoding) (chunk : List ℕ)
      → All IsMasked encodings
      → All (λ i. i < length encodings) chunk
      → ((out : rt.Outputs) (slots : List T)
          → Yields rt variant m out (rows_of encodings (chunk_max (lens_of encodings) chunk) chunk)
          → All (λ i. i < length slots) chunk
          → place encodings chunk out slots ≡ ok (write_all g chunk slots))
      → Places rt g place encodings chunk
  unfolding run_chunk
  run-Places g place encodings chunk masked inside fills s slots e =
      let n = chunk_max (lens_of encodings) chunk in
      let (wide, built) = build_chunk_arrays-rows rt variant m laws encodings chunk masked inside in
      let (out, ms, s', ran, yields) = laws.runs s n (rows_of encodings n chunk) wide in
      (
        out,
        ms,
        s',
        rw (built, ran, run_chunk),
        fills out slots yields (All-map (λ i h. omega arith) chunk inside),
      )

-- If each chunk's run fills its slots with the values of their texts, the request succeeds with the values of all texts in order.
pub embed_texts-in_order :
    (rt : Runtime) {T : Type 0} (f : Encoding → T) (place : Place rt T) (empty : T)
    (tokenizer : rt.Tokenizer) (texts : List Text) (cm : CostModel rt.floats.Carrier)
    (guard : Option TrtJitGuard) (encodings : List Encoding) (ms : ℕ) (s : rt.Session)
    → rt.encode_batch tokenizer texts ≡ (ok encodings, ms)
    → length encodings ≡ length texts
    → guard_chunks guard (bin_pack rt.floats (lens_of encodings) cm rt.sort) (lens_of encodings)
      ≡ admitted
    → ((chunk : List ℕ)
        → All (λ i. i < length encodings) chunk
        → Places rt (λ i. f (encoding_at encodings i)) place encodings chunk)
    → (stats : EmbedStats) × (s' : rt.Session) × (embed_texts rt place empty tokenizer texts cm
          guard s
        ≡ (ok (map f encodings, stats), s'))
embed_texts-in_order rt f place empty tokenizer texts cm guard encodings ms s tokenized counted
      admits places =
    let (stats, s', e) =
      embed_encoded-in_order rt (λ i. f (encoding_at encodings i)) place encodings cm guard ms empty
        (All-map places _ (bin_pack-inside rt encodings cm)) admits s in
    (
      stats,
      s',
      rw
          (
            embed_texts-ok rt place empty tokenizer texts cm guard encodings ms s tokenized,
            ← counted,
          )
          (e ∙ ap (λ vs. (ok (vs, stats), s')) (map-encoding_at f encodings)),
    )
