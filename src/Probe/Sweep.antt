-- ===== src/Probe/Sweep.antt =====
-- src/probe/runner.rs: which shapes the probe measures, and what it ends with.
use bge_m3_embedding_server.Prelude.{
  ℕ, ◌≤◌, ◌<◌, ◌≡◌, refl, subst, ◌⊎◌, inl, inr, true, List, [], ◌∷◌, leb, is_empty, length, Text,
  All, Bool-cases, Option-cases, leb→le, All-append,
}
use bge_m3_embedding_server.AppError.{Result, ok, err, panic}
use bge_m3_embedding_server.Prelude.Floats.{F64, FitOps, IsRange}
use bge_m3_embedding_server.BinPack.{CostModel, conservative, fits}
use bge_m3_embedding_server.TrtWarmup.{Shape, ProbeResult}
use bge_m3_embedding_server.Pool.{probe}
use bge_m3_embedding_server.Probe.Corpus.{
  load_probe_texts, IsUsable, synthesize_texts-Ends, synthesize_texts-ascii,
  load_probe_texts-IsUsable,
}
use bge_m3_embedding_server.Probe.Fit.{
  DataPoint, fit_cost_model, IsPlausible, fit_cost_model-IsPlausible, min_a, max_a, min_b, max_b,
}
use bge_m3_embedding_server.Probe.Runner.{
  retain_short, insert_shape_sorted, sort_by_positions, positions, shapes_for, candidate_shapes,
  ProbePool, breaches, add_point, run_shape, probe_sweep, conservative_ab, all_zero, conclude,
  run_probe,
}

module _ (max_seq : ℕ) where
  IsShort : Shape → Type 0
  IsShort s = s.1 ≤ max_seq

  retain_short-IsShort : (ss : List Shape) → All IsShort (retain_short max_seq ss)
  unfolding retain_short IsShort
  retain_short-IsShort [] = tt
  retain_short-IsShort (s ∷ ss) = elim (Bool-cases (leb s.1 max_seq)) [
    | inl e ↦ rw e (leb→le s.1 max_seq e, retain_short-IsShort ss)
    | inr e ↦ rw e (retain_short-IsShort ss)
  ]

  insert_shape_sorted-IsShort :
      (s : Shape) (ss : List Shape)
      → IsShort s
      → All IsShort ss
      → All IsShort (insert_shape_sorted s ss)
  unfolding insert_shape_sorted
  insert_shape_sorted-IsShort s [] h a = (h, tt)
  insert_shape_sorted-IsShort s (t ∷ ts) h a = elim (Bool-cases (leb (positions s) (positions t))) [
    | inl e ↦ rw e (h, a)
    | inr e ↦ rw e (a.0, insert_shape_sorted-IsShort s ts h a.1)
  ]

  sort_by_positions-IsShort :
      (ss : List Shape) → All IsShort ss → All IsShort (sort_by_positions ss)
  unfolding sort_by_positions
  sort_by_positions-IsShort [] a = tt
  sort_by_positions-IsShort (s ∷ ss) a =
      insert_shape_sorted-IsShort s (sort_by_positions ss) a.0 (sort_by_positions-IsShort ss a.1)

  shapes_for-IsShort : All IsShort (shapes_for max_seq)
  unfolding shapes_for
  shapes_for-IsShort =
      sort_by_positions-IsShort (retain_short max_seq (candidate_shapes max_seq))
        (retain_short-IsShort (candidate_shapes max_seq))

module _ (f : F64) (ops : FitOps f) {S : Type 0} (pool : ProbePool S) where
  open f use {Carrier}

  -- A measured shape is one of those allowed, and fits the budget by the conservative model.
  abbrev pub IsGuarded : CostModel Carrier → ℕ → DataPoint → Type 0
  IsGuarded cm max_seq p = (fits f cm p.batch p.seq ≡ true) × (p.seq ≤ max_seq)

  add_point-IsGuarded :
      (cm : CostModel Carrier) (max_seq : ℕ) (shape : Shape) (r : Result ProbeResult)
      (points : List DataPoint)
      → fits f cm shape.0 shape.1 ≡ true
      → shape.1 ≤ max_seq
      → All (IsGuarded cm max_seq) points
      → All (IsGuarded cm max_seq) (add_point f ops pool shape r points)
  unfolding add_point
  add_point-IsGuarded cm max_seq shape (ok r) points h b a =
      All-append (IsGuarded cm max_seq) points _ a ((h, b), tt)
  add_point-IsGuarded cm max_seq shape (err e) points h b a = a
  add_point-IsGuarded cm max_seq shape panic points h b a = a

  -- With a corpus that is usable, the sweep of the probe comes to its end, and each shape that it measured is at most as
  -- long as the configured maximum and fits the budget by the conservative model.
  probe_sweep-IsGuarded :
      (corpus : List Text) (cm : CostModel Carrier) (limit max_seq : ℕ) (shapes : List Shape)
      (points : List DataPoint) (s : S)
      → All IsUsable corpus
      → 0 < length corpus
      → All (IsShort max_seq) shapes
      → All (IsGuarded cm max_seq) points
      → (r : List DataPoint × S) × (probe_sweep f ops pool corpus cm limit shapes points s ≡ ok r)
        × All (IsGuarded cm max_seq) r.0
  unfolding probe_sweep run_shape IsShort
  probe_sweep-IsGuarded corpus cm limit max_seq [] points s u n h a = ((points, s), refl, a)
  probe_sweep-IsGuarded corpus cm limit max_seq (shape ∷ shapes) points s u n h a =
      let skip = probe_sweep-IsGuarded corpus cm limit max_seq shapes points s u n h.1 a in
      elim (Bool-cases (fits f cm shape.0 shape.1)) [
        | inr e ↦ rw (e, probe_sweep) skip
        | inl e ↦ elim (Bool-cases (breaches f ops pool limit cm shape s)) [
          | inl g ↦ rw (e, g, probe_sweep) skip
          | inr g ↦
              let (texts, made, count, sizes) = synthesize_texts-ascii corpus shape.0 shape.1 u n in
              let (d, s') = pool.measure texts s in
              let points' = add_point f ops pool shape (probe d) points in
              rw (e, g, probe_sweep, run_shape, made)
                (probe_sweep-IsGuarded corpus cm limit max_seq shapes points' s' u n h.1
                  (add_point-IsGuarded cm max_seq shape (probe d) points e h.0 a))
        ]
      ]

  -- What the probe ends with: the conservative coefficients, or a plausible fit.
  abbrev pub IsOutcome : Carrier × Carrier → Type 0
  IsOutcome r = (r ≡ conservative_ab f ops pool) ⊎ IsPlausible f ops r

  conclude-IsOutcome :
      (points : List DataPoint)
      → IsRange ops (min_a f ops) (max_a f ops)
      → IsRange ops (min_b f ops) (max_b f ops)
      → IsOutcome (conclude f ops pool points)
  unfolding conclude
  conclude-IsOutcome points ra rb = elim (Bool-cases (is_empty points)) [
    | inl e ↦ inl (rw (e, conclude) refl)
    | inr e ↦ elim (Bool-cases (all_zero f ops pool points)) [
      | inl g ↦ inl (rw (e, g, conclude) refl)
      | inr g ↦ elim (Option-cases (fit_cost_model f ops points)) [
        | inl h ↦ inl (rw (e, g, h, conclude) refl)
        | inr h ↦
            let plausible = (fit_cost_model-IsPlausible f ops points h.0 ra rb h.1).1 in
            inr (subst (IsPlausible f ops) (rw (e, g, h.1, conclude) refl) plausible)
      ]
    ]
  ]

  -- If the texts of the corpus file are ASCII and not empty, and the bounds of the coefficients are in order and not below themselves,
  -- then the probe comes to its end, without a panic, whatever the worker replies and the memory reading gives. It
  -- ends with the conservative coefficients, or with fitted ones that are within their bounds.
  -- Each of its measurements that it fits is of a shape that is at most as long as the configured maximum
  -- and fits the budget by the conservative model.
  pub run_probe-IsOutcome :
      (corpus_file : List Text) (max_seq rss_ceiling cgroup_limit_bytes : ℕ) (s : S)
      → All IsUsable corpus_file
      → IsRange ops (min_a f ops) (max_a f ops)
      → IsRange ops (min_b f ops) (max_b f ops)
      → (points : List DataPoint) × (s' : S) × (run_probe f ops pool corpus_file max_seq rss_ceiling
            cgroup_limit_bytes s
          ≡ ok (conclude f ops pool points, s'))
        × All (IsGuarded (conservative f rss_ceiling) max_seq) points
        × IsOutcome (conclude f ops pool points)
  unfolding run_probe
  run_probe-IsOutcome corpus_file max_seq rss_ceiling cgroup_limit_bytes s u ra rb =
      let (usable, some_text) = load_probe_texts-IsUsable corpus_file u in
      let corpus = load_probe_texts corpus_file in
      let (texts, made, count, sizes) = synthesize_texts-ascii corpus 1 64 usable some_text in
      let (r, swept, guarded) =
        probe_sweep-IsGuarded corpus (conservative f rss_ceiling) cgroup_limit_bytes max_seq
          (shapes_for max_seq) [] ((pool.measure texts s).1) usable some_text
          (shapes_for-IsShort max_seq) tt in
      rw (run_probe, made, swept) (r.0, r.1, refl, guarded, conclude-IsOutcome r.0 ra rb)

  probe_sweep-ends :
      (corpus : List Text) (cm : CostModel Carrier) (limit max_seq : ℕ) (shapes : List Shape)
      (points : List DataPoint) (s : S)
      → All (IsShort max_seq) shapes
      → All (IsGuarded cm max_seq) points
      → (probe_sweep f ops pool corpus cm limit shapes points s ≡ panic)
        ⊎ ((r : List DataPoint × S) × (probe_sweep f ops pool corpus cm limit shapes points s
              ≡ ok r)
            × All (IsGuarded cm max_seq) r.0)
  unfolding probe_sweep run_shape IsShort
  probe_sweep-ends corpus cm limit max_seq [] points s h a = inr ((points, s), refl, a)
  probe_sweep-ends corpus cm limit max_seq (shape ∷ shapes) points s h a =
      let skip = probe_sweep-ends corpus cm limit max_seq shapes points s h.1 a in
      elim (Bool-cases (fits f cm shape.0 shape.1)) [
        | inr e ↦ rw (e, probe_sweep) skip
        | inl e ↦ elim (Bool-cases (breaches f ops pool limit cm shape s)) [
          | inl g ↦ rw (e, g, probe_sweep) skip
          | inr g ↦ elim (synthesize_texts-Ends corpus shape.0 shape.1) [
            | inl made ↦ rw (e, g, probe_sweep, run_shape, made) (inl refl)
            | inr (texts, made) ↦
                let (d, s') = pool.measure texts s in
                let points' = add_point f ops pool shape (probe d) points in
                rw (e, g, probe_sweep, run_shape, made)
                  (probe_sweep-ends corpus cm limit max_seq shapes points' s' h.1
                    (add_point-IsGuarded cm max_seq shape (probe d) points e h.0 a))
          ]
        ]
      ]

  -- The probe ended with measurements of shapes that are at most as long as the configured maximum
  -- and fit the budget, and with coefficients that are the conservative ones or within their bounds.
  abbrev pub EndsWell : ℕ → ℕ → Result ((Carrier × Carrier) × S) → Type 0
  EndsWell max_seq rss_ceiling ended =
      (points : List DataPoint) × (s : S) × (ended ≡ ok (conclude f ops pool points, s))
      × All (IsGuarded (conservative f rss_ceiling) max_seq) points
      × IsOutcome (conclude f ops pool points)

  run_probe_cases :
      (corpus_file : List Text) (max_seq rss_ceiling limit : ℕ) (s : S)
      → IsRange ops (min_a f ops) (max_a f ops)
      → IsRange ops (min_b f ops) (max_b f ops)
      → (run_probe f ops pool corpus_file max_seq rss_ceiling limit s ≡ panic)
        ⊎ EndsWell max_seq rss_ceiling
            (run_probe f ops pool corpus_file max_seq rss_ceiling limit s)
  unfolding run_probe
  run_probe_cases corpus_file max_seq rss_ceiling limit s ra rb =
      let corpus = load_probe_texts corpus_file in
      elim (synthesize_texts-Ends corpus 1 64) [
        | inl made ↦ rw (run_probe, made) (inl refl)
        | inr (texts, made) ↦
            elim (probe_sweep-ends corpus (conservative f rss_ceiling) limit max_seq
              (shapes_for max_seq) [] ((pool.measure texts s).1) (shapes_for-IsShort max_seq) tt) [
                | inl swept ↦ rw (run_probe, made, swept) (inl refl)
                | inr (r, swept, guarded) ↦
                    rw (run_probe, made, swept)
                      (inr (r.0, r.1, refl, guarded, conclude-IsOutcome r.0 ra rb))
              ]
      ]

  -- If the bounds of the coefficients are in order and not below themselves, then the probe panics, which it does
  -- only if a text of the corpus file is empty or not ASCII, or it comes to its end, whatever the
  -- worker replies and the memory reading gives. It ends with the conservative coefficients, or with
  -- fitted ones that are within their bounds, and each measurement that it uses for them is of a shape that
  -- is at most as long as the configured maximum and fits the budget by the conservative model.
  pub run_probe-ends :
      (corpus_file : List Text) (max_seq rss_ceiling cgroup_limit_bytes : ℕ) (s : S)
      → IsRange ops (min_a f ops) (max_a f ops)
      → IsRange ops (min_b f ops) (max_b f ops)
      → ((run_probe f ops pool corpus_file max_seq rss_ceiling cgroup_limit_bytes s ≡ panic)
          × ¬ All IsUsable corpus_file)
        ⊎ EndsWell max_seq rss_ceiling
            (run_probe f ops pool corpus_file max_seq rss_ceiling cgroup_limit_bytes s)
  run_probe-ends corpus_file max_seq rss_ceiling limit s ra rb =
      elim (run_probe_cases corpus_file max_seq rss_ceiling limit s ra rb) [
        | inr well ↦ inr well
        | inl crash ↦ inl (
          crash,
          λ usable.
              let (points, s', ended, guarded, outcome) =
                run_probe-IsOutcome corpus_file max_seq rss_ceiling limit s usable ra rb in
              cc (crash, ended),
        )
      ]
