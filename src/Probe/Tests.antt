-- ===== src/Probe/Tests.antt =====
-- A probe in whole numbers, over a worker that takes a megabyte for each text.
use bge_m3_embedding_server.Prelude.{
  ◌≢◌, ◌⊎◌, some, ℕ, ◌+◌, ◌*◌, ◌≡◌, refl, true, none, some, List, [], ◌∷◌, arith, length, All, Text,
  codes,
}
use bge_m3_embedding_server.AppError.{ok, panic}
use bge_m3_embedding_server.Pool.{replied}
use bge_m3_embedding_server.Prelude.Floats.{whole, whole_ops, IsRange}
use bge_m3_embedding_server.Probe.Corpus.{IsUsable, slice_to, all_ascii, all_ascii-IsAscii}
use bge_m3_embedding_server.Probe.Fit.{
  DataPoint, fit_cost_model, gram_step, solve, clamp_coefficients,
}
use bge_m3_embedding_server.Probe.Cache.{
  Fingerprint, Json, SaveOutcome, CacheDir, save_probe_cache, try_load_probe_cache, new_cache,
  try_load_probe_cache-save_probe_cache,
}
use bge_m3_embedding_server.Probe.Runner.{
  ProbePool, run_probe, shapes_for, retain_short, sort_by_positions, insert_shape_sorted,
}
use bge_m3_embedding_server.Probe.Sweep.{EndsWell, run_probe-ends}

abbrev range_a : IsRange whole_ops 4096 262144
range_a = record { lo_irrefl = refl; hi_irrefl = refl; in_order = refl }

abbrev range_b : IsRange whole_ops 0 50000
range_b = record { lo_irrefl = refl; hi_irrefl = refl; in_order = refl }

abbrev corpus : List Text
corpus = codes "To be, or not to be" ∷ codes "that is the question" ∷ []

corpus-IsUsable : All IsUsable corpus
unfolding all_ascii
corpus-IsUsable = (
  (all_ascii-IsAscii (codes "To be, or not to be") refl, omega arith),
  ((all_ascii-IsAscii (codes "that is the question") refl, omega arith), tt),
)

shapes_example : shapes_for 512 ≡ (1, 64) ∷ (4, 64) ∷ (1, 256) ∷ (1, 512) ∷ []
unfolding shapes_for retain_short sort_by_positions insert_shape_sorted
shapes_example = refl

-- A cut inside a character of two bytes.
slice_inside : slice_to 3 (233 ∷ 233 ∷ []) ≡ panic
unfolding slice_to
slice_inside = refl

abbrev points : List DataPoint
points =
    record { batch = 1; seq = 64; rss_delta = 1000000 }
    ∷ record { batch = 4; seq = 64; rss_delta = 5000000 }
    ∷ []

fits_points : fit_cost_model whole whole_ops points ≡ some (4096, 0)
unfolding fit_cost_model gram_step solve clamp_coefficients
fits_points = refl

abbrev pool : ProbePool ℕ
pool = record {
  measure = λ texts s.
      (replied (ok (record { rss_before = 0; rss_after = length texts * 1000000 })), s + 1);
  read_process_rss_bytes = λ s. some 1000;
}

run_probe-ends_example :
    ((run_probe whole whole_ops pool corpus 512 2000000000 4000000000 0 ≡ panic)
      × ¬ All IsUsable corpus)
    ⊎ EndsWell whole whole_ops pool 512 2000000000
        (run_probe whole whole_ops pool corpus 512 2000000000 4000000000 0)
run_probe-ends_example =
    run_probe-ends whole whole_ops pool corpus 512 2000000000 4000000000 0 range_a range_b

abbrev fingerprint : ℕ → Fingerprint
fingerprint max_seq = record {
  server_version = codes "1.0.0";
  model = codes "fp16";
  max_seq = max_seq;
  arch = codes "x86_64";
}

-- A format that is read back as it was written, for the one cache of the test.
abbrev json : Json ℕ
json = record {
  to_string_pretty = λ c. some (codes "{}");
  from_str = λ t. some (record {
    schema_version = 1;
    fingerprint = fingerprint 512;
    fitted_at_unix = 7;
    a = 5000;
    b = 3;
  });
}

abbrev saved : SaveOutcome
saved = record { written = true; partial = none; renamed = true; removed = true }

abbrev empty_dir : CacheDir
empty_dir = record { final_file = none; tmp_file = none }

try_load_probe_cache-save_probe_cache_example :
    ((fingerprint 1024 ≡ fingerprint 512)
      × (try_load_probe_cache whole whole_ops json
            (save_probe_cache whole whole_ops json saved (fingerprint 512) 7 5000 3 empty_dir)
            (fingerprint 1024)
          ≡ some (5000, 3)))
    ⊎ ((fingerprint 1024 ≢ fingerprint 512)
        × (try_load_probe_cache whole whole_ops json
              (save_probe_cache whole whole_ops json saved (fingerprint 512) 7 5000 3 empty_dir)
              (fingerprint 1024)
            ≡ none))
unfolding new_cache
try_load_probe_cache-save_probe_cache_example =
    try_load_probe_cache-save_probe_cache whole whole_ops json saved (fingerprint 512)
      (fingerprint 1024) 7 5000 3 5000 3 empty_dir (codes "{}") refl refl refl refl refl refl
