-- ===== src/CacheGc/Left.antt =====
-- src/embedder/trt_cache_gc.rs: which entries a sweep of the cache directory leaves.
use bge_m3_embedding_server.Prelude.{
  ◌+◌, ◌^◌, ◌<◌, ◌≡◌, refl, sym, ap, ap₂, ◌∙◌, inl, inr, Bool, true, false, not, ◌&&◌, ◌||◌, none,
  some, List, [], ◌∷◌, is_empty, length, Text, Bool-cases, Option-cases, arith, if◌then◌else◌,
}
use bge_m3_embedding_server.CacheGc.{
  DirEntry, GcStats, gc_stats_default, plan_to_delete, count_plan, sweep_plans, sidecar_prefix,
  is_stale_sidecar, has_text, sweep_sidecars, gc_stale_sm_plans,
}

abbrev pub retain : (DirEntry → Bool) → List DirEntry → List DirEntry
retain test [] = []
retain test (e ∷ es) = if test e then e ∷ retain test es else retain test es

-- The plans of other GPUs that can be removed.
abbrev pub deletes_plan : Text → DirEntry → Bool
deletes_plan current_sm e = elim (plan_to_delete current_sm e) [
  | none ↦ false
  | some plan ↦ e.removable
]

-- Their stems.
abbrev pub deleted_stems : Text → List DirEntry → List Text
deleted_stems current_sm [] = []
deleted_stems current_sm (e ∷ es) =
    let rest = deleted_stems current_sm es in
    elim (plan_to_delete current_sm e) [
      | none ↦ rest
      | some plan ↦ if e.removable then plan.0 ∷ rest else rest
    ]

abbrev pub deletes_sidecar : List Text → DirEntry → Bool
deletes_sidecar deletions e = is_stale_sidecar deletions e && e.removable

pub sweep_plans-left :
    (current_sm : Text) (es : List DirEntry) (stats : GcStats)
    → ((sweep_plans current_sm es stats).left ≡ retain (λ e. not (deletes_plan current_sm e)) es)
      × ((sweep_plans current_sm es stats).deletions ≡ deleted_stems current_sm es)
unfolding sweep_plans
sweep_plans-left current_sm [] stats = (refl, refl)
sweep_plans-left current_sm (e ∷ es) stats = elim (Option-cases (plan_to_delete current_sm e)) [
  | inl f ↦
      let rest = sweep_plans-left current_sm es stats in
      rw (f, sweep_plans, retain, deletes_plan, deleted_stems) (ap (λ x. e ∷ x) rest.0, rest.1)
  | inr f ↦ elim (Bool-cases e.removable) [
    | inl g ↦
        let rest = sweep_plans-left current_sm es (count_plan e f.0.1 stats) in
        rw (f.1, g, sweep_plans, retain, deletes_plan, deleted_stems)
          (rest.0, ap (λ x. f.0.0 ∷ x) rest.1)
    | inr g ↦
        let rest = sweep_plans-left current_sm es stats in
        simp (f.1, g, sweep_plans, retain, deletes_plan, deleted_stems)
          (ap (λ x. e ∷ x) rest.0, rest.1)
  ]
]

pub sweep_plans-counts :
    (current_sm : Text) (es : List DirEntry) (stats : GcStats)
    → stats.plans_deleted + length es < 2 ^ 64
    → (sweep_plans current_sm es stats).stats.plans_deleted
      ≡ stats.plans_deleted + length (deleted_stems current_sm es)
unfolding sweep_plans count_plan
sweep_plans-counts current_sm [] stats h = omega arith
sweep_plans-counts current_sm (e ∷ es) stats h = elim (Option-cases (plan_to_delete current_sm e)) [
  | inl f ↦
      rw (f, sweep_plans, retain, deletes_plan, deleted_stems)
        (sweep_plans-counts current_sm es stats (omega arith))
  | inr f ↦ elim (Bool-cases e.removable) [
    | inl g ↦
        rw (f.1, g, sweep_plans, retain, deletes_plan, deleted_stems)
          (omega (arith, sweep_plans-counts current_sm es (count_plan e f.0.1 stats) (omega arith)))
    | inr g ↦
        rw (f.1, g, sweep_plans, retain, deletes_plan, deleted_stems)
          (sweep_plans-counts current_sm es stats (omega arith))
  ]
]

pub sweep_sidecars-left :
    (deletions : List Text) (es : List DirEntry) (stats : GcStats)
    → ((sweep_sidecars deletions es stats).1 ≡ retain (λ e. not (deletes_sidecar deletions e)) es)
      × ((sweep_sidecars deletions es stats).0.plans_deleted ≡ stats.plans_deleted)
unfolding sweep_sidecars
sweep_sidecars-left deletions [] stats = (refl, refl)
sweep_sidecars-left deletions (e ∷ es) stats = elim (Bool-cases (deletes_sidecar deletions e)) [
  | inl f ↦ rw (f, sweep_sidecars) (sweep_sidecars-left deletions es _)
  | inr f ↦
      let rest = sweep_sidecars-left deletions es stats in
      rw (f, sweep_sidecars) (ap (λ x. e ∷ x) rest.0, rest.1)
]

pub retain-retain :
    (p q : DirEntry → Bool) (es : List DirEntry)
    → retain (λ e. not (q e)) (retain (λ e. not (p e)) es) ≡ retain (λ e. not (p e || q e)) es
retain-retain p q [] = refl
retain-retain p q (e ∷ es) = elim (Bool-cases (p e)) [
  | inl f ↦ rw f (retain-retain p q es)
  | inr f ↦ elim (Bool-cases (q e)) [
    | inl g ↦ rw (f, g) (retain-retain p q es)
    | inr g ↦ rw (f, g) (ap (λ x. e ∷ x) (retain-retain p q es))
  ]
]

pub is_stale_sidecar-nil : (e : DirEntry) → is_stale_sidecar [] e ≡ false
unfolding is_stale_sidecar has_text
is_stale_sidecar-nil e = elim (Option-cases (if e.is_file then sidecar_prefix e.name else none)) [
  | inl f ↦ rw (f, is_stale_sidecar) refl
  | inr f ↦ rw (f.1, is_stale_sidecar) refl
]

pub sweep_sidecars-nil :
    (es : List DirEntry) (stats : GcStats) → sweep_sidecars [] es stats ≡ (stats, es)
unfolding sweep_sidecars
sweep_sidecars-nil [] stats = refl
sweep_sidecars-nil (e ∷ es) stats =
    rw (is_stale_sidecar-nil e, sweep_sidecars-nil es stats, sweep_sidecars) refl

-- The second sweep is skipped only where it would change nothing.
pub sweep_sidecars-always :
    (deletions : List Text) (es : List DirEntry) (stats : GcStats)
    → (if is_empty deletions then (stats, es) else sweep_sidecars deletions es stats)
      ≡ sweep_sidecars deletions es stats
sweep_sidecars-always [] es stats = sym (sweep_sidecars-nil es stats)
sweep_sidecars-always (d ∷ ds) es stats = refl

-- What a collection deletes: a plan of another GPU, or a sidecar of a plan that it deletes.
abbrev pub removes : Text → List DirEntry → DirEntry → Bool
removes current_sm dir e =
    deletes_plan current_sm e || deletes_sidecar (deleted_stems current_sm dir) e

-- A collection in a directory that can be read twice and has fewer than 2^64 files leaves exactly the files that are
-- not a removable plan of another GPU or a removable sidecar of such a plan, in their order, and
-- counts the plans.
pub gc_stale_sm_plans-left :
    (dir : List DirEntry) (current_sm : Text)
    → length dir < 2 ^ 64
    → ((gc_stale_sm_plans (some dir) true current_sm).1
        ≡ retain (λ e. not (removes current_sm dir e)) dir)
      × ((gc_stale_sm_plans (some dir) true current_sm).0.plans_deleted
          ≡ length (deleted_stems current_sm dir))
unfolding gc_stale_sm_plans gc_stats_default
gc_stale_sm_plans-left dir current_sm b =
    let swept = sweep_plans current_sm dir gc_stats_default in
    let (plans_left, stems) = sweep_plans-left current_sm dir gc_stats_default in
    let count : swept.stats.plans_deleted ≡ 0 + length (deleted_stems current_sm dir) =
      sweep_plans-counts current_sm dir gc_stats_default (omega arith) in
    let (left, same) = sweep_sidecars-left swept.deletions swept.left swept.stats in
    rw (sweep_sidecars-always swept.deletions swept.left swept.stats) (
      left
          ∙ ap₂ (λ d l. retain (λ e. not (deletes_sidecar d e)) l) stems plans_left
          ∙ retain-retain (deletes_plan current_sm) (deletes_sidecar (deleted_stems current_sm dir))
              dir,
      omega (arith, same, count),
    )
