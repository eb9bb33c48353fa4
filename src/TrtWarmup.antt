-- ===== src/TrtWarmup.antt =====
-- src/embedder/trt_warmup.rs and trt_warmup/runner.rs, and the counts of engine files from
-- src/embedder/trt_cache/enumerate.rs: a worker runs a dummy batch of each shape so that TensorRT
-- compiles and caches its engines.
pub mod Coverage
pub mod Prewarm
pub mod Shards
mod Tests
use bge_m3_embedding_server.Prelude.{
  ℕ, zero, suc, ◌+◌, ◌-◌, ◌*◌, ◌%◌, ◌^◌, min, max, Bool, true, false, not, ◌&&◌, ◌||◌, Option, none,
  some, List, [], ◌∷◌, ◌++◌, map, ◌==◌, ltb, leb, if◌then◌else◌, is_empty, length, replicate, Text,
  codes, ends_with, ℤ, sub_ℤ,
}
use bge_m3_embedding_server.AppError.{Result, ok, err, panic, ◌>>=◌, map_err, ort_err}
use bge_m3_embedding_server.Runtime.{Runtime, Array2}
use bge_m3_embedding_server.Scores.{smallest, largest}
use bge_m3_embedding_server.Embed.Types.{saturating_add_u64}

-- A batch and a sequence length.
abbrev pub Shape : Type 0
Shape = ℕ × ℕ

-- `CACHE_HIT_THRESHOLD_MS`
abbrev pub cache_hit_threshold_ms : ℕ
cache_hit_threshold_ms = 5000

abbrev pub same_shape : Shape → Shape → Bool
same_shape s t = (s.0 == t.0) && (s.1 == t.1)

abbrev pub has_shape : List Shape → Shape → Bool
has_shape [] t = false
has_shape (s ∷ ss) t = same_shape s t || has_shape ss t

-- `shapes.iter().find(test)`, or the default where no shape passes.
unfoldable pub find_shape : (Shape → Bool) → Shape → List Shape → Shape
find_shape test d [] = d
find_shape test d (s ∷ ss) = if test s then s else find_shape test d ss

-- The loop that keeps the first of equal shapes.
unfoldable pub push_new : List Shape → List Shape → List Shape
push_new [] result = result
push_new (s ∷ ss) result = push_new ss (if has_shape result s then result else result ++ s ∷ [])

-- Some shape has each extreme, so no `find` gives its default.
unfoldable pub coverage_check_shapes : List Shape → List Shape
coverage_check_shapes [] = []
coverage_check_shapes (s ∷ ss) =
    let shapes : List Shape = s ∷ ss in
    let min_batch = smallest s.0 (map (λ x. x.0) ss) in
    let max_batch = largest (map (λ x. x.0) shapes) in
    let min_seq = smallest s.1 (map (λ x. x.1) ss) in
    let max_seq = largest (map (λ x. x.1) shapes) in
    push_new
      (find_shape (λ x. x.0 == min_batch) s shapes
        ∷ find_shape (λ x. x.0 == max_batch) s shapes
        ∷ find_shape (λ x. x.1 == min_seq) s shapes
        ∷ find_shape (λ x. x.1 == max_seq) s shapes
        ∷ [])
      []

-- The shapes at the positions, from `i` on, that a worker takes.
unfoldable pub stride : List Shape → ℕ → ℕ → ℕ → List Shape
stride [] i worker_index worker_count = []
stride (s ∷ ss) i worker_index worker_count =
    let rest = stride ss (suc i) worker_index worker_count in
    if i % worker_count == worker_index then s ∷ rest else rest

unfoldable pub shard_shapes : List Shape → ℕ → ℕ → List Shape
shard_shapes shapes worker_index worker_count =
    if leb worker_count 1 then shapes else stride shapes 0 worker_index worker_count

-- `trt_cache::matches_sm_suffix`
unfoldable pub matches_sm_suffix : Text → Text → Bool
matches_sm_suffix name sm = ends_with (codes "_" ++ (sm ++ codes ".engine")) name

-- `trt_cache::engine_files_for_sm`, on the names of the files of the directory.
unfoldable pub engine_files_for_sm : Option Text → List Text → List Text
engine_files_for_sm sm [] = []
engine_files_for_sm sm (name ∷ names) =
    let rest = engine_files_for_sm sm names in
    let counts =
      ends_with (codes ".engine") name
      && elim sm [ none ↦ true | some target ↦ matches_sm_suffix name target ] in
    if counts then name ∷ rest else rest

pub record ProbeResult : Type 0 where
  pub rss_before : ℕ
  pub rss_after : ℕ

pub record ShapeRunResult : Type 0 where
  pub compile_ms : ℕ
  pub fsync_ms : ℕ
  pub cache_hit : Bool
  pub succeeded : Bool

pub record PrewarmStats : Type 0 where
  pub warmed : ℕ
  pub total_compile_ms : ℕ
  pub total_fsync_ms : ℕ
  pub fully_cached : Bool
  pub skipped : ℕ
  pub fresh_compiles : ℕ
  pub engine_count_delta : ℤ
  pub engine_count_before : ℕ
  pub engine_count_after : ℕ
  pub max_warmed_seq : ℕ

-- The variables of the two loops.
pub record Sweep : Type 0 where
  pub warmed : ℕ
  pub fresh_compiles : ℕ
  pub total_compile_ms : ℕ
  pub total_fsync_ms : ℕ
  pub max_warmed_seq : ℕ
  pub all_checks_fast : Bool

-- What the operating system shows of a session: the files of the engine cache directory, the
-- milliseconds of an fsync of it, and the resident memory of the process, where it can be read.
pub record Host (rt : Runtime) : Type 0 where
  pub file_names : rt.Session → List Text
  pub fsync_cache_dir : rt.Session → ℕ
  pub read_process_rss_bytes : rt.Session → Option ℕ

-- What a run of a shape adds to the variables; `&=` only in the first loop.
unfoldable pub tally : Sweep → ℕ → ShapeRunResult → Sweep
tally w seq r =
    let checks = w.all_checks_fast && (r.cache_hit && r.succeeded) in
    if r.succeeded
    then (record {
      warmed = w.warmed + 1;
      fresh_compiles = if r.cache_hit then w.fresh_compiles else w.fresh_compiles + 1;
      total_compile_ms = saturating_add_u64 w.total_compile_ms r.compile_ms;
      total_fsync_ms = saturating_add_u64 w.total_fsync_ms r.fsync_ms;
      max_warmed_seq = max w.max_warmed_seq seq;
      all_checks_fast = checks;
    })
    else record w { all_checks_fast = checks }

abbrev pub is_panic : {A : Type 0} → Result A → Bool
is_panic (ok a) = false
is_panic (err e) = false
is_panic panic = true

-- `Option::unwrap_or`
abbrev pub unwrap_or : Option ℕ → ℕ → ℕ
unwrap_or none d = d
unwrap_or (some n) d = n

module _ (rt : Runtime) (host : Host rt) where
  open rt use {Session, run}

  unfoldable pub count_engine_files_for_sm : Session → Option Text → ℕ
  count_engine_files_for_sm s sm = length (engine_files_for_sm sm (host.file_names s))

  -- `worker::probe::probe_run_dense`, and the milliseconds of the run.
  unfoldable pub probe_run_dense : Session → Array2 → Array2 → (Result ProbeResult × ℕ) × Session
  probe_run_dense s ids mask =
      let rss_before = unwrap_or (host.read_process_rss_bytes s) 0 in
      let ((r, ms), s') = run s ids mask in
      let rss_after = unwrap_or (host.read_process_rss_bytes s') rss_before in
      (
        (
          do
            out ← map_err ort_err r
            ok (record { rss_before = rss_before; rss_after = rss_after }),
          ms,
        ),
        s',
      )

  -- Whether the thread unwinds while it warms a shape up. `Array2::zeros` panics on more elements
  -- than `isize::MAX`, counted without the axes of length 0, and on more bytes; the run may too.
  unfoldable pub warmup_shape_panics : Session → Shape → Bool
  unfolding probe_run_dense
  warmup_shape_panics s (batch, seq) =
      let ids : Array2 = record { rows = batch; cols = seq; flat = replicate (batch * seq) 0 } in
      let mask : Array2 = record { rows = batch; cols = seq; flat = replicate (batch * seq) 1 } in
      (ltb (2 ^ 63 - 1) (max batch 1 * max seq 1) || ltb (2 ^ 63 - 1) (batch * seq * 8))
      || is_panic (probe_run_dense s ids mask).0.0

  -- The result of a run that does not panic.
  unfoldable pub run_warmup_shape : Session → Shape → ShapeRunResult × Session
  unfolding probe_run_dense
  run_warmup_shape s (batch, seq) =
      let ids : Array2 = record { rows = batch; cols = seq; flat = replicate (batch * seq) 0 } in
      let mask : Array2 = record { rows = batch; cols = seq; flat = replicate (batch * seq) 1 } in
      let ((r, compile_ms), s') = probe_run_dense s ids mask in
      let cache_hit = ltb compile_ms cache_hit_threshold_ms in
      let failed : ShapeRunResult = record {
        compile_ms = compile_ms;
        fsync_ms = 0;
        cache_hit = cache_hit;
        succeeded = false;
      } in
      (
        elim r [
          | ok p ↦ record {
            compile_ms = compile_ms;
            fsync_ms = host.fsync_cache_dir s';
            cache_hit = cache_hit;
            succeeded = true;
          }
          | err e ↦ failed
          | panic ↦ failed
        ],
        s',
      )

  -- The loop over the shapes that pass the test.
  unfoldable pub sweep : (Shape → Bool) → List Shape → Sweep → Session → Sweep × Session
  sweep test [] w s = (w, s)
  sweep test (shape ∷ shapes) w s =
      let (r, s') = run_warmup_shape s shape in
      elim (test shape) [
        | true ↦ sweep test shapes (tally w shape.1 r) s'
        | false ↦ sweep test shapes w s
      ]

  -- Whether the loop panics at one of its shapes.
  unfoldable pub sweep_panics : (Shape → Bool) → List Shape → Session → Bool
  unfolding warmup_shape_panics run_warmup_shape
  sweep_panics test [] s = false
  sweep_panics test (shape ∷ shapes) s =
      let after = sweep_panics test shapes (run_warmup_shape s shape).1 in
      let passed = sweep_panics test shapes s in
      if test shape then warmup_shape_panics s shape || after else passed

  unfoldable pub prewarm_stats : Sweep → Bool → ℕ → ℕ → ℕ → PrewarmStats
  prewarm_stats w fully_cached skipped before after = record {
    warmed = w.warmed;
    total_compile_ms = w.total_compile_ms;
    total_fsync_ms = w.total_fsync_ms;
    fully_cached = fully_cached;
    skipped = skipped;
    fresh_compiles = w.fresh_compiles;
    engine_count_delta = sub_ℤ (min after (2 ^ 63 - 1)) (min before (2 ^ 63 - 1));
    engine_count_before = before;
    engine_count_after = after;
    max_warmed_seq = w.max_warmed_seq;
  }

  abbrev pub no_runs : Bool → Sweep
  no_runs checks = record {
    warmed = 0;
    fresh_compiles = 0;
    total_compile_ms = 0;
    total_fsync_ms = 0;
    max_warmed_seq = 0;
    all_checks_fast = checks;
  }

  -- What follows the checks. The second loop does not use `all_checks_fast`.
  unfoldable pub after_checks :
      List Shape → Option Text → ℕ → List Shape → Sweep → Session → PrewarmStats × Session
  unfolding sweep prewarm_stats count_engine_files_for_sm
  after_checks warmup_shapes sm before check_shapes w s =
      let (w2, s2) = sweep (λ x. not (has_shape check_shapes x)) warmup_shapes w s in
      if w.all_checks_fast
      then (
        prewarm_stats w true (length warmup_shapes - length check_shapes) before
            (count_engine_files_for_sm s sm),
        s,
      )
      else (prewarm_stats w2 false 0 before (count_engine_files_for_sm s2 sm), s2)

  -- The warmup, for shapes and a session with which it does not panic.
  unfoldable pub trt_prewarm : List Shape → Option Text → Session → PrewarmStats × Session
  trt_prewarm [] sm s =
      let before = count_engine_files_for_sm s sm in
      (prewarm_stats (no_runs false) false 0 before before, s)
  trt_prewarm (x ∷ xs) sm s =
      let before = count_engine_files_for_sm s sm in
      let check_shapes = if ltb 0 before then coverage_check_shapes (x ∷ xs) else [] in
      let (w, s') = sweep (λ x. true) check_shapes (no_runs (not (is_empty check_shapes))) s in
      after_checks (x ∷ xs) sm before check_shapes w s'

  -- Whether a warmup panics, in the check of the covering shapes or in the loop over the others.
  unfoldable pub prewarm_panics : List Shape → Option Text → Session → Bool
  unfolding sweep sweep_panics count_engine_files_for_sm
  prewarm_panics shapes sm s =
      let before = count_engine_files_for_sm s sm in
      let check_shapes = if ltb 0 before then coverage_check_shapes shapes else [] in
      let (w, s') = sweep (λ x. true) check_shapes (no_runs (not (is_empty check_shapes))) s in
      let others = sweep_panics (λ x. not (has_shape check_shapes x)) shapes s' in
      sweep_panics (λ x. true) check_shapes s || (not w.all_checks_fast && others)
