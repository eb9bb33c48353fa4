-- ===== src/BinPack.antt =====
-- src/binpack.rs: the quadratic workspace cost model and the length-sorted greedy packer.
-- The sort of the standard library is a parameter; the tracing calls have no effect on the result.
pub mod Partition
pub mod Fits
pub mod Cost
mod Tests
use bge_m3_embedding_server.Prelude.{
  ℕ, suc, ◌+◌, ◌-◌, ◌*◌, ◌^◌, min, max, Bool, true, false, ◌||◌, List, [], ◌∷◌, ◌++◌, foldl, leb,
  if◌then◌else◌, length, is_empty, get_or, range_from, UnstableSort,
}
use bge_m3_embedding_server.Prelude.Floats.{F64}

-- `CostModel`, over the floats `F` of its coefficients.
pub record CostModel (F : Type 0) : Type 0 where
  pub a : F
  pub b : F
  pub max_workspace_bytes : ℕ

-- `u128::MAX`
abbrev pub u128_max : ℕ
u128_max = 2 ^ 128 - 1

-- `CostModel::DEFAULT_MAX_WORKSPACE`
abbrev pub default_max_workspace : ℕ
default_max_workspace = 2 * 1024 * 1024 * 1024

abbrev pub saturating_add_u128 : ℕ → ℕ → ℕ
saturating_add_u128 x y = min (x + y) u128_max

module _ (f : F64) where
  open f use {Carrier, of_ℕ, mul, to_u128}

  -- `CostModel::conservative`: 16384.0 and 8.0.
  unfoldable pub conservative : ℕ → CostModel Carrier
  conservative max_bytes = record { a = of_ℕ 16384; b = of_ℕ 8; max_workspace_bytes = max_bytes }

  -- `count * max_seq` is a product of two 64-bit numbers, which `u128` holds.
  unfoldable pub chunk_cost : CostModel Carrier → ℕ → ℕ → ℕ
  chunk_cost cm count max_seq =
      let n = count * max_seq in
      let linear = to_u128 (mul cm.a (of_ℕ n)) in
      let quad = to_u128 (mul (mul cm.b (of_ℕ n)) (of_ℕ max_seq)) in saturating_add_u128 linear quad

  unfoldable pub fits : CostModel Carrier → ℕ → ℕ → Bool
  fits cm count max_seq = leb (chunk_cost cm count max_seq) cm.max_workspace_bytes

-- The variables of the packing loop.
pub record Packing : Type 0 where
  pub chunks : List (List ℕ)
  pub current : List ℕ
  pub current_max_seq : ℕ

abbrev pub no_chunks : Packing
no_chunks = record { chunks = []; current = []; current_max_seq = 0 }

-- `if !current.is_empty() { chunks.push(current) }`
unfoldable pub flush : Packing → List (List ℕ)
flush p = if is_empty p.current then p.chunks else p.chunks ++ p.current ∷ []

module _ (f : F64) (seq_lengths : List ℕ) (cm : CostModel f.Carrier) where
  -- The loop's body. `seq_lengths[idx]` is in range for every index that is packed.
  unfoldable pub pack_step : Packing → ℕ → Packing
  pack_step p idx =
      let seq = get_or seq_lengths idx 0 in
      let new_max = max p.current_max_seq seq in
      let new_count = length p.current + 1 in
      if is_empty p.current || fits f cm new_count new_max
      then record p { current = p.current ++ idx ∷ []; current_max_seq = new_max }
      else record { chunks = p.chunks ++ p.current ∷ []; current = idx ∷ []; current_max_seq = seq }

  -- The loop over the sorted indices.
  unfoldable pub pack_sorted : List ℕ → Packing → Packing
  pack_sorted [] p = p
  pack_sorted (idx ∷ rest) p = pack_sorted rest (pack_step p idx)

  unfoldable pub bin_pack : UnstableSort → List (List ℕ)
  bin_pack s =
      if is_empty seq_lengths
      then []
      else flush (
          pack_sorted
            (s.sort_by_key (λ i. get_or seq_lengths i 0) (range_from 0 (length seq_lengths)))
            no_chunks)
