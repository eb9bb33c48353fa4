-- ===== src/JitGuard/Tests.antt =====
-- The guard on small batches.
use bge_m3_embedding_server.Prelude.{ℕ, ◌≡◌, refl, some, List, [], ◌∷◌}
use bge_m3_embedding_server.JitGuard.{TrtJitGuard, admitted, guard_chunks, guard_each, admit}
use bge_m3_embedding_server.JitGuard.Coverage.{Decides, guard_chunks-Decides}

abbrev guard : TrtJitGuard
guard = record { guard_seq = 5; warmed_seq_ceiling = 8 }

abbrev lens : List ℕ
lens = 3 ∷ 4 ∷ 7 ∷ 9 ∷ []

guard_chunks-Decides_example :
    Decides guard
      ((0 ∷ 1 ∷ []) ∷ (2 ∷ 3 ∷ []) ∷ [])
      lens
      (guard_chunks (some guard) ((0 ∷ 1 ∷ []) ∷ (2 ∷ 3 ∷ []) ∷ []) lens)
guard_chunks-Decides_example = guard_chunks-Decides guard ((0 ∷ 1 ∷ []) ∷ (2 ∷ 3 ∷ []) ∷ []) lens

small_batch : guard_chunks (some guard) ((0 ∷ 2 ∷ []) ∷ []) lens ≡ admitted
unfolding guard_chunks guard_each admit
small_batch = refl
