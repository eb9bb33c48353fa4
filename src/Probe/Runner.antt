-- ===== src/Probe/Runner.antt =====
-- src/probe/runner.rs: the shapes of the probe, the sweep over them, and what it ends with.
use bge_m3_embedding_server.Prelude.{
  ℕ, ◌+◌, ◌-◌, ◌*◌, ◌/◌, ◌%◌, ◌^◌, min, Bool, true, false, not, ◌&&◌, ◌||◌, Option, none, some,
  List, [], ◌∷◌, ◌++◌, ltb, leb, ◌==◌, if◌then◌else◌, is_empty, Text,
}
use bge_m3_embedding_server.AppError.{Result, ok, err, panic, ◌>>=◌}
use bge_m3_embedding_server.Prelude.Floats.{F64, FitOps}
use bge_m3_embedding_server.BinPack.{CostModel, conservative, chunk_cost, fits}
use bge_m3_embedding_server.TrtWarmup.{Shape, ProbeResult}
use bge_m3_embedding_server.Pool.{Delivery, probe}
use bge_m3_embedding_server.Probe.Corpus.{synthesize_texts, load_probe_texts}
use bge_m3_embedding_server.Probe.Fit.{DataPoint, fit_cost_model}

-- `PROBE_SHAPES`
abbrev pub probe_shapes : List Shape
probe_shapes = (1, 64) ∷ (4, 64) ∷ (1, 256) ∷ (1, 1024) ∷ (1, 2048) ∷ (1, 4096) ∷ []

abbrev any_seq : ℕ → List Shape → Bool
any_seq seq [] = false
any_seq seq (s ∷ ss) = (s.1 == seq) || any_seq seq ss

-- `shapes.retain(|&(_, s)| s <= max_seq)`
unfoldable pub retain_short : ℕ → List Shape → List Shape
retain_short max_seq [] = []
retain_short max_seq (s ∷ ss) =
    let rest = retain_short max_seq ss in if leb s.1 max_seq then s ∷ rest else rest

abbrev pub positions : Shape → ℕ
positions s = s.0 * s.1

-- The stable sort by the token positions.
unfoldable pub insert_shape_sorted : Shape → List Shape → List Shape
insert_shape_sorted s [] = s ∷ []
insert_shape_sorted s (t ∷ ts) =
    if leb (positions s) (positions t) then s ∷ t ∷ ts else t ∷ insert_shape_sorted s ts

unfoldable pub sort_by_positions : List Shape → List Shape
unfolding insert_shape_sorted
sort_by_positions [] = []
sort_by_positions (s ∷ ss) = insert_shape_sorted s (sort_by_positions ss)

abbrev pub candidate_shapes : ℕ → List Shape
candidate_shapes max_seq =
    if any_seq max_seq probe_shapes then probe_shapes else probe_shapes ++ (1, max_seq) ∷ []

unfoldable pub shapes_for : ℕ → List Shape
unfolding retain_short sort_by_positions
shapes_for max_seq = sort_by_positions (retain_short max_seq (candidate_shapes max_seq))

-- The worker that measures a batch, and the memory of the process, over the states `S`.
pub record ProbePool (S : Type 0) : Type 0 where
  pub measure : List Text → S → Delivery ProbeResult × S
  pub read_process_rss_bytes : S → Option ℕ

abbrev pub saturate_usize : ℕ → ℕ
saturate_usize n = min n (2 ^ 64 - 1)

module _ (f : F64) (ops : FitOps f) {S : Type 0} (pool : ProbePool S) where
  open f use {Carrier, of_ℕ}

  -- The guard on the memory of the process: an eighth of the limit stays free.
  unfoldable pub breaches : ℕ → CostModel Carrier → Shape → S → Bool
  breaches cgroup_limit_bytes cm shape s =
      let current_rss : ℕ = elim (pool.read_process_rss_bytes s) [ none ↦ 0 | some n ↦ n ] in
      let estimated_cost = chunk_cost f cm shape.0 shape.1 % 2 ^ 64 in
      let rss_limit = cgroup_limit_bytes - cgroup_limit_bytes / 8 in
      let projected = saturate_usize (current_rss + saturate_usize (estimated_cost * 4)) in
      ltb 0 cgroup_limit_bytes && ltb rss_limit projected

  abbrev pub delta_of : ProbeResult → ℕ
  delta_of r = r.rss_after - r.rss_before

  -- A shape that is measured adds a data point; one that fails adds none.
  unfoldable pub add_point : Shape → Result ProbeResult → List DataPoint → List DataPoint
  add_point shape (ok r) points =
      points ++ record { batch = shape.0; seq = shape.1; rss_delta = delta_of r } ∷ []
  add_point shape (err e) points = points
  add_point shape panic points = points

  unfoldable pub run_shape : List Text → Shape → List DataPoint → S → Result (List DataPoint × S)
  unfolding add_point
  run_shape corpus shape points s = synthesize_texts corpus shape.0 shape.1 >>= λ texts.
      let (d, s') = pool.measure texts s in ok (add_point shape (probe d) points, s')

  unfoldable pub probe_sweep :
      List Text
      → CostModel Carrier
      → ℕ
      → List Shape
      → List DataPoint
      → S
      → Result (List DataPoint × S)
  unfolding breaches run_shape
  probe_sweep corpus cm limit [] points s = ok (points, s)
  probe_sweep corpus cm limit (shape ∷ shapes) points s =
      if not (fits f cm shape.0 shape.1)
      then probe_sweep corpus cm limit shapes points s
      else if breaches limit cm shape s
      then probe_sweep corpus cm limit shapes points s
      else run_shape corpus shape points s >>= λ r. probe_sweep corpus cm limit shapes r.0 r.1

  abbrev pub conservative_ab : Carrier × Carrier
  conservative_ab = (of_ℕ 16384, of_ℕ 8)

  abbrev pub all_zero : List DataPoint → Bool
  all_zero [] = true
  all_zero (p ∷ ps) = (p.rss_delta == 0) && all_zero ps

  -- What the probe makes of its measurements.
  unfoldable pub conclude : List DataPoint → Carrier × Carrier
  conclude points =
      if is_empty points
      then conservative_ab
      else if all_zero points
      then conservative_ab
      else elim (fit_cost_model f ops points) [ none ↦ conservative_ab | some r ↦ r ]

  -- The warm-up of the arena, whose result is dropped, and the sweep. The list of texts is that of the corpus
  -- file.
  unfoldable pub run_probe : List Text → ℕ → ℕ → ℕ → S → Result ((Carrier × Carrier) × S)
  unfolding probe_sweep conclude shapes_for
  run_probe corpus_file max_seq rss_ceiling cgroup_limit_bytes s =
      let corpus = load_probe_texts corpus_file in
      synthesize_texts corpus 1 64 >>= λ texts.
      probe_sweep corpus (conservative f rss_ceiling) cgroup_limit_bytes (shapes_for max_seq) []
        ((pool.measure texts s).1)
      >>= λ r. ok (conclude r.0, r.1)
