-- ===== src/BinPack/Tests.antt =====
-- The packer on small inputs, with insertion sort and whole-number coefficients.
use bge_m3_embedding_server.Prelude.{
  ℕ, ◌≡◌, refl, List, [], ◌∷◌, flatten, Perm, All, insertion, insertion_sort,
}
use bge_m3_embedding_server.Prelude.Floats.{whole}
use bge_m3_embedding_server.BinPack.{
  CostModel, bin_pack, pack_sorted, pack_step, flush, fits, chunk_cost,
}
use bge_m3_embedding_server.BinPack.Partition.{bin_pack-perm}
use bge_m3_embedding_server.BinPack.Fits.{
  IsRunnable, IsGreedy, bin_pack-IsRunnable, bin_pack-IsGreedy,
}

-- One byte for each token position, and forty bytes.
abbrev small : CostModel ℕ
small = record { a = 1; b = 0; max_workspace_bytes = 40 }

abbrev lens : List ℕ
lens = 30 ∷ 5 ∷ 100 ∷ 8 ∷ 6 ∷ []

bin_pack-small : bin_pack whole lens small insertion ≡ (1 ∷ 4 ∷ 3 ∷ []) ∷ (0 ∷ []) ∷ (2 ∷ []) ∷ []
unfolding bin_pack pack_sorted pack_step flush fits chunk_cost insertion_sort
bin_pack-small = refl

bin_pack-perm_example :
    Perm (flatten (bin_pack whole lens small insertion)) (0 ∷ 1 ∷ 2 ∷ 3 ∷ 4 ∷ [])
bin_pack-perm_example = bin_pack-perm whole lens small insertion

bin_pack-IsRunnable_example :
    All (IsRunnable whole lens small) (bin_pack whole lens small insertion)
bin_pack-IsRunnable_example = bin_pack-IsRunnable whole lens small insertion

bin_pack-IsGreedy_example : IsGreedy whole lens small (bin_pack whole lens small insertion)
bin_pack-IsGreedy_example = bin_pack-IsGreedy whole lens small insertion
