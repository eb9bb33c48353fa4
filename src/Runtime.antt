-- ===== src/Runtime.antt =====
-- What the server takes from third parties: the floats, the sort of the standard library, the
-- tokenizer (`tokenizers`), tensors (`ndarray`) and inference sessions (`ort`).
use bge_m3_embedding_server.Prelude.{ℕ, Bool, List, Text, UnstableSort}
use bge_m3_embedding_server.Prelude.Floats.{F64}
use bge_m3_embedding_server.AppError.{Result}

-- `tokenizers::Encoding`
pub record Encoding : Type 0 where
  pub ids : List ℕ
  pub attention_mask : List ℕ

-- `ndarray::Array2<i64>`, row by row.
pub record Array2 : Type 0 where
  pub rows : ℕ
  pub cols : ℕ
  pub flat : List ℕ

pub record Runtime : Type 1 where
  pub floats : F64
  pub sort : UnstableSort
  -- `f32`
  pub F32 : Type 0
  pub zero_f32 : F32
  pub add : F32 → F32 → F32
  pub mul : F32 → F32 → F32
  pub div : F32 → F32 → F32
  pub sqrt : F32 → F32
  pub max_f32 : F32 → F32 → F32
  -- `x > 0.0`
  pub is_positive : F32 → Bool
  -- `ArrayView1::dot`
  pub dot : List F32 → List F32 → F32
  pub from_shape_vec : ℕ → ℕ → List ℕ → Result Array2
  pub Tokenizer : Type 0
  -- `encode_batch_fast`, and the milliseconds that it took.
  pub encode_batch : Tokenizer → List Text → Result (List Encoding) × ℕ
  pub Session : Type 0
  pub Outputs : Type 0
  -- `session.run`, the milliseconds that it took, and the session afterwards.
  pub run : Session → Array2 → Array2 → (Result Outputs × ℕ) × Session
  -- The named outputs, as rows of floats, or as rows of rows.
  pub sentence_embedding : Outputs → Result (List (List F32))
  pub token_embeddings : Outputs → Result (List (List (List F32)))
  pub last_hidden_state : Outputs → Result (List (List (List F32)))
  -- The weights bundled with the binary.
  pub sparse_weight : List F32
  pub sparse_bias : F32
