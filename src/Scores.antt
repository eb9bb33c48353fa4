-- ===== src/Scores.antt =====
-- src/embedder/math.rs: sparse scores, medians and the distribution of sequence lengths.
pub mod Lengths
pub mod Pooled
mod Tests
use bge_m3_embedding_server.Prelude.{
  ℕ, suc, ◌+◌, ◌-◌, ◌*◌, ◌/◌, min, max, Bool, true, false, ◌||◌, List, [], ◌∷◌, map, foldl, ◌==◌,
  if◌then◌else◌, is_empty, length, get_elem?, get_or, UnstableSort,
}
use bge_m3_embedding_server.AppError.{Result, ok, panic, ◌>>=◌, expect}
use bge_m3_embedding_server.Runtime.{Runtime}

-- `SPECIAL_TOKENS.contains(&id)`
abbrev pub is_special : ℕ → Bool
is_special id = id == 0 || (id == 1 || (id == 2 || id == 3))

abbrev pub sum : List ℕ → ℕ
sum [] = 0
sum (x ∷ xs) = x + sum xs

abbrev pub largest : List ℕ → ℕ
largest [] = 0
largest (x ∷ xs) = max x (largest xs)

-- The smallest element of a list that begins with `x`.
abbrev pub smallest : ℕ → List ℕ → ℕ
smallest x [] = x
smallest x (y ∷ ys) = min x (smallest y ys)

pub record SeqLenDistribution : Type 0 where
  pub shortest : ℕ
  pub longest : ℕ
  pub mean : ℕ
  pub p95 : ℕ

module _ (s : UnstableSort) where
  open s use {sort_by_key}

  unfoldable pub median_usize : List ℕ → ℕ
  median_usize values =
      if is_empty values then 0 else get_or (sort_by_key (λ x. x) values) (length values / 2) 0

  unfoldable pub seq_len_distribution : List ℕ → SeqLenDistribution
  seq_len_distribution [] = record { shortest = 0; longest = 0; mean = 0; p95 = 0 }
  seq_len_distribution (x ∷ xs) =
      let lens : List ℕ = x ∷ xs in
      let sorted = sort_by_key (λ n. n) lens in
      let p95_idx = length sorted * 95 / 100 in
      record {
        shortest = smallest x xs;
        longest = largest lens;
        mean = sum lens / length lens;
        p95 = get_or sorted (min p95_idx (length sorted - 1)) 0;
      }

module _ (rt : Runtime) where
  open rt use {F32, zero_f32, add, mul, div, sqrt, max_f32, is_positive, dot}

  unfoldable pub normalize_l2 : List F32 → List F32
  normalize_l2 vec =
      let norm = sqrt (foldl add zero_f32 (map (λ x. mul x x) vec)) in
      if is_positive norm then map (λ x. div x norm) vec else vec

  unfoldable pub sparse_project : List F32 → List F32 → F32 → F32
  sparse_project hidden weight bias = max_f32 (add (dot hidden weight) bias) zero_f32

  -- `token_weights.entry(id).and_modify(|w| *w = w.max(score)).or_insert(score)`
  unfoldable pub upsert : ℕ → F32 → List (ℕ × F32) → List (ℕ × F32)
  upsert id score [] = (id, score) ∷ []
  upsert id score ((k, w) ∷ m) =
      if k == id then (k, max_f32 w score) ∷ m else (k, w) ∷ upsert id score m

  -- The loop over the tokens from position `j`; `mask[j]` and `scores[j]` panic out of range.
  unfoldable pub pool_tokens :
      List ℕ → List ℕ → List F32 → ℕ → List (ℕ × F32) → Result (List (ℕ × F32))
  pool_tokens [] mask scores j m = ok m
  pool_tokens (id ∷ ids) mask scores j m = do
    mask_j ← expect (get_elem? mask j)
    elim (mask_j == 0 || is_special id) [
      | true ↦ pool_tokens ids mask scores (suc j) m
      | false ↦ do
        score ← expect (get_elem? scores j)
        pool_tokens ids mask scores (suc j) (if is_positive score then upsert id score m else m)
    ]

  -- `token_weights[k]`
  unfoldable pub weight_of : ℕ → List (ℕ × F32) → Result F32
  weight_of k [] = panic
  weight_of k ((i, w) ∷ m) = if i == k then ok w else weight_of k m

  unfoldable pub weights_of : List ℕ → List (ℕ × F32) → Result (List F32)
  unfolding weight_of
  weights_of [] m = ok []
  weights_of (k ∷ ks) m = do w ← weight_of k m; ws ← weights_of ks m; ok (w ∷ ws)

  unfoldable pub sparse_maxpool : List ℕ → List ℕ → List F32 → Result (List ℕ × List F32)
  sparse_maxpool ids mask scores = do
    token_weights ← pool_tokens ids mask scores 0 []
    let indices = rt.sort.sort_by_key (λ k. k) (map (λ e. e.0) token_weights)
    values ← weights_of indices token_weights
    ok (indices, values)
