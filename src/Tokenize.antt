-- ===== src/Tokenize.antt =====
-- src/embedder/tokenize.rs: the padded tensors of a chunk.
use bge_m3_embedding_server.Prelude.{
  ℕ, ◌-◌, List, [], ◌∷◌, ◌++◌, length, get_elem?, replicate, Text, codes,
}
use bge_m3_embedding_server.AppError.{Result, ok, ◌>>=◌, expect, map_err, anyhow, display}
use bge_m3_embedding_server.Runtime.{Runtime, Encoding, Array2}

-- `pad_id` and the mask of padding.
abbrev pub pad_id : ℕ
pad_id = 1

-- The row of an encoding, right-padded.
abbrev pub padded_ids : Encoding → ℕ → List ℕ
padded_ids enc pad_to = enc.ids ++ replicate (pad_to - length enc.ids) pad_id

abbrev pub padded_mask : Encoding → ℕ → List ℕ
padded_mask enc pad_to = enc.attention_mask ++ replicate (pad_to - length enc.ids) 0

-- `ids_flat` and `mask_flat`; an index out of range panics.
unfoldable pub flat_rows : List Encoding → List ℕ → ℕ → Result (List ℕ × List ℕ)
flat_rows encodings [] pad_to = ok ([], [])
flat_rows encodings (idx ∷ rest) pad_to = do
  enc ← expect (get_elem? encodings idx)
  (ids, mask) ← flat_rows encodings rest pad_to
  ok (padded_ids enc pad_to ++ ids, padded_mask enc pad_to ++ mask)

module _ (rt : Runtime) where
  open rt use {Tokenizer, encode_batch, from_shape_vec}

  -- The milliseconds are the caller's clock around the call.
  unfoldable pub tokenize_no_pad : Tokenizer → List Text → Result (List Encoding) × ℕ
  tokenize_no_pad tokenizer texts =
      let (r, ms) = encode_batch tokenizer texts in
      (map_err (λ e. anyhow (codes "Tokenization failed: " ++ display e)) r, ms)

  unfoldable pub build_chunk_arrays : List Encoding → List ℕ → ℕ → Result (Array2 × Array2)
  build_chunk_arrays encodings indices pad_to = do
    (ids_flat, mask_flat) ← flat_rows encodings indices pad_to
    ids_array ← from_shape_vec (length indices) pad_to ids_flat
    mask_array ← from_shape_vec (length indices) pad_to mask_flat
    ok (ids_array, mask_array)
