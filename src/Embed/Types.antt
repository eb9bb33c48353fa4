-- ===== src/Embed/Types.antt =====
-- The data of the embedding functions, src/embedder/types.rs and config.rs, and the loops over
-- the slots of the results.
use bge_m3_embedding_server.Prelude.{
  ℕ, suc, ◌+◌, ◌^◌, ◌-◌, min, Option, List, [], ◌∷◌, ltb, if◌then◌else◌, length, set,
}
use bge_m3_embedding_server.AppError.{Result, ok, panic, ◌>>=◌, expect}

-- `config::ModelVariant`
pub data ModelVariant : Type 0 where
  fp32 fp16 int8 : ModelVariant

-- `EmbedStats`
pub record EmbedStats : Type 0 where
  pub chunks : ℕ
  pub max_chunk_seq : ℕ
  pub total_token_positions : ℕ
  pub tokenize_ms : ℕ
  pub inference_ms : ℕ
  pub seq_len_min : ℕ
  pub seq_len_max : ℕ
  pub seq_len_mean : ℕ
  pub seq_len_p95 : ℕ

pub record SparseEmbedding (F : Type 0) : Type 0 where
  pub indices : List ℕ
  pub values : List F

pub record DualEmbedding (F : Type 0) : Type 0 where
  pub dense : List F
  pub sparse : SparseEmbedding F

-- The variables that the chunk loop updates.
pub record Progress (T : Type 0) : Type 0 where
  pub slots : List T
  pub max_chunk_seq : ℕ
  pub inference_ms : ℕ

-- `u64::saturating_add`
abbrev pub saturating_add_u64 : ℕ → ℕ → ℕ
saturating_add_u64 a b = min (a + b) (2 ^ 64 - 1)

-- `slots[i] = v`, which panics out of range.
abbrev pub write_slot {ℓ} : {T : Type ℓ} → List T → ℕ → T → Result (List T)
write_slot slots i v = if ltb i (length slots) then ok (set slots i v) else panic

-- The loop over a chunk's texts: the row at `chunk_pos` goes to the slot of the text.
unfoldable pub scatter {ℓ} :
    {T : Type ℓ} → (ℕ → ℕ → Result T) → ℕ → List ℕ → List T → Result (List T)
scatter row_of chunk_pos [] slots = ok slots
scatter row_of chunk_pos (orig_idx ∷ rest) slots = do
  v ← row_of chunk_pos orig_idx
  slots' ← write_slot slots orig_idx v
  scatter row_of (suc chunk_pos) rest slots'

-- `(0..n).map(f)`, which stops at a panic.
unfoldable pub for_each {ℓ} : {T : Type ℓ} → (ℕ → Result T) → List ℕ → Result (List T)
for_each f [] = ok []
for_each f (j ∷ js) = do v ← f j; vs ← for_each f js; ok (v ∷ vs)

-- `slots.into_iter().map(|s| s.expect("every slot must be filled")).collect()`
unfoldable pub unwrap_slots {ℓ} : {T : Type ℓ} → List (Option T) → Result (List T)
unwrap_slots [] = ok []
unwrap_slots (s ∷ ss) = do v ← expect s; vs ← unwrap_slots ss; ok (v ∷ vs)
