-- ===== src/TrtWarmup/Tests.antt =====
-- Warmups of a small grid of shapes.
use bge_m3_embedding_server.Prelude.{◌<◌, ◌≡◌, refl, some, List, [], ◌∷◌, codes, ends_with}
use bge_m3_embedding_server.Scores.{largest}
use bge_m3_embedding_server.Embed.Toy.{toy}
use bge_m3_embedding_server.TrtWarmup.{
  Shape, Host, coverage_check_shapes, trt_prewarm, count_engine_files_for_sm, after_checks, sweep,
  tally, run_warmup_shape, prewarm_stats, engine_files_for_sm, find_shape, push_new,
  matches_sm_suffix,
}
use bge_m3_embedding_server.TrtWarmup.Prewarm.{seqs, trt_prewarm-fully_cached}

abbrev grid : List Shape
grid = (1, 128) ∷ (1, 512) ∷ (4, 128) ∷ (4, 512) ∷ []

-- The engine of one GPU is cached.
abbrev pub cached : Host toy
cached = record {
  file_names = λ s. codes "profile_sm89.engine" ∷ [];
  fsync_cache_dir = λ s. 2;
  read_process_rss_bytes = λ s. some 1000;
}

-- The toy runtime takes 7 ms for a shape, so the checks are fast.
abbrev tiny : List Shape
tiny = (1, 2) ∷ (1, 3) ∷ (2, 2) ∷ (2, 3) ∷ []

trt_prewarm-fully_cached_example :
    (0 < count_engine_files_for_sm toy cached 0 (some (codes "sm89")))
    × ((trt_prewarm toy cached tiny (some (codes "sm89")) 0).0.fresh_compiles ≡ 0)
    × ((trt_prewarm toy cached tiny (some (codes "sm89")) 0).0.max_warmed_seq ≡ largest (seqs tiny))
unfolding trt_prewarm after_checks sweep tally run_warmup_shape prewarm_stats engine_files_for_sm
    find_shape push_new matches_sm_suffix coverage_check_shapes ends_with
trt_prewarm-fully_cached_example =
    trt_prewarm-fully_cached toy cached tiny (some (codes "sm89")) 0 refl
