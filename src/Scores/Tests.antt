-- ===== src/Scores/Tests.antt =====
-- The lengths of a small batch.
use bge_m3_embedding_server.Prelude.{ℕ, ◌≡◌, refl, arith, List, [], ◌∷◌, insertion, insertion_sort}
use bge_m3_embedding_server.AppError.{ok}
use bge_m3_embedding_server.Embed.Toy.{toy}
use bge_m3_embedding_server.Scores.{
  seq_len_distribution, sparse_maxpool, pool_tokens, upsert, weights_of, weight_of,
}
use bge_m3_embedding_server.Scores.Pooled.{counted, IsPooled, sparse_maxpool-IsPooled}

three_texts :
    seq_len_distribution insertion (30 ∷ 5 ∷ 100 ∷ [])
    ≡ record { shortest = 5; longest = 100; mean = 45; p95 = 100 }
unfolding seq_len_distribution insertion_sort
three_texts = refl

-- Two scores of one token, a special token, a masked one, and one without a score.
abbrev ids : List ℕ
ids = 9 ∷ 2 ∷ 5 ∷ 9 ∷ 7 ∷ 6 ∷ []

abbrev mask : List ℕ
mask = 1 ∷ 1 ∷ 1 ∷ 1 ∷ 0 ∷ 1 ∷ []

abbrev scores : List ℕ
scores = 3 ∷ 8 ∷ 4 ∷ 6 ∷ 9 ∷ 0 ∷ []

two_tokens : sparse_maxpool toy ids mask scores ≡ ok (5 ∷ 9 ∷ [], 4 ∷ 6 ∷ [])
unfolding sparse_maxpool pool_tokens upsert weights_of weight_of insertion_sort
two_tokens = refl

sparse_maxpool-IsPooled_example :
    (indices : List ℕ) × (values : List ℕ) × (sparse_maxpool toy ids mask scores
      ≡ ok (indices, values))
    × IsPooled toy indices values (counted toy ids mask scores)
sparse_maxpool-IsPooled_example =
    sparse_maxpool-IsPooled toy ids mask scores (omega arith) (omega arith)
