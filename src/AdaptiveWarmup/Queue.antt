-- ===== src/AdaptiveWarmup/Queue.antt =====
-- src/embedder/adaptive_warmup.rs: the pending shapes as a queue without repetitions, apart from the
-- warmed ones.
use bge_m3_embedding_server.Prelude.{
  ℕ, zero, suc, ◌≡◌, refl, subst, inl, inr, Bool, true, false, ◌||◌, some, List, [], ◌∷◌, ◌++◌,
  arith, ◌==◌, leb, All, Bool-cases,
}
use mathlib.Core.Option.{some_inj}
use bge_m3_embedding_server.TrtWarmup.{Shape, same_shape, has_shape}
use bge_m3_embedding_server.TrtWarmup.Coverage.{same_shape_refl, has_shape-append, same_has_shape}
use bge_m3_embedding_server.AdaptiveWarmup.{
  insert_suspect, drain_rx, shift_remove, wait_for_quiet_window, quiet_loop, Second,
}

-- No shape stands twice in the list.
abbrev pub Distinct : List Shape → Type 0
Distinct [] = Unit
Distinct (s ∷ ss) = (has_shape ss s ≡ false) × Distinct ss

abbrev pub Apart : List Shape → List Shape → Type 0
Apart warmed = All (λ s. has_shape warmed s ≡ false)

-- The pending shapes are distinct, and none of them is warmed.
abbrev pub IsQueue : List Shape → List Shape → Type 0
IsQueue warmed pending = Distinct pending × Apart warmed pending

or_false_left : (a b : Bool) → (a || b) ≡ false → a ≡ false
or_false_left true b h = h
or_false_left false b h = refl

pub or_false_right : (a b : Bool) → (a || b) ≡ false → b ≡ false
or_false_right true b h = cc h
or_false_right false b h = h

or_false : (a b : Bool) → a ≡ false → b ≡ false → (a || b) ≡ false
or_false a b h k = rw (h, k) refl

same_shape_comm : (s t : Shape) → same_shape s t ≡ false → same_shape t s ≡ false
same_shape_comm (b, q) (c, r) h = ground arith

Distinct-snoc :
    (ss : List Shape) (s : Shape) → Distinct ss → has_shape ss s ≡ false → Distinct (ss ++ s ∷ [])
Distinct-snoc [] s d h = (refl, tt)
Distinct-snoc (x ∷ ss) s d h =
    let other : same_shape s x ≡ false = same_shape_comm x s (or_false_left _ _ h) in
    (
      rw (has_shape-append ss (s ∷ []) x, d.0, other) refl,
      Distinct-snoc ss s d.1 (or_false_right (same_shape x s) _ h),
    )

Apart-snoc :
    (warmed ss : List Shape) (s : Shape)
    → Apart warmed ss
    → has_shape warmed s ≡ false
    → Apart warmed (ss ++ s ∷ [])
Apart-snoc warmed [] s a h = (h, tt)
Apart-snoc warmed (x ∷ ss) s a h = (a.0, Apart-snoc warmed ss s a.1 h)

pub insert_suspect-IsQueue :
    (warmed pending : List Shape) (s : Shape)
    → IsQueue warmed pending
    → IsQueue warmed (insert_suspect warmed pending s)
unfolding insert_suspect
insert_suspect-IsQueue warmed pending s q = elim (Bool-cases (has_shape warmed s)) [
  | inl e ↦ rw e q
  | inr e ↦ elim (Bool-cases (has_shape pending s)) [
    | inl f ↦ rw (e, f) q
    | inr f ↦ rw (e, f) (Distinct-snoc pending s q.0 f, Apart-snoc warmed pending s q.1 e)
  ]
]

pub drain_rx-IsQueue :
    (rs warmed pending : List Shape)
    → IsQueue warmed pending
    → IsQueue warmed (drain_rx rs pending warmed)
unfolding drain_rx
drain_rx-IsQueue [] warmed pending q = q
drain_rx-IsQueue (s ∷ rs) warmed pending q =
    drain_rx-IsQueue rs warmed _ (insert_suspect-IsQueue warmed pending s q)

shift_remove-head : (s : Shape) (ss : List Shape) → shift_remove (s ∷ ss) s ≡ ss
unfolding shift_remove
shift_remove-head s ss = rw (same_shape_refl s) refl

Apart-insert :
    (warmed ss : List Shape) (s : Shape)
    → Apart warmed ss
    → has_shape ss s ≡ false
    → Apart (s ∷ warmed) ss
Apart-insert warmed [] s a h = tt
Apart-insert warmed (x ∷ ss) s a h = (
  or_false _ _ (same_shape_comm x s (or_false_left _ _ h)) a.0,
  Apart-insert warmed ss s a.1 (or_false_right (same_shape x s) _ h),
)

pub IsQueue-dropped :
    (warmed pending ss : List Shape) (s : Shape)
    → pending ≡ s ∷ ss
    → IsQueue warmed pending
    → IsQueue warmed (shift_remove pending s)
IsQueue-dropped warmed pending ss s e q =
    let q' : IsQueue warmed (s ∷ ss) = subst (IsQueue warmed) e q in
    rw (e, shift_remove-head s ss) (q'.0.1, q'.1.1)

pub IsQueue-warmed :
    (warmed pending ss : List Shape) (s : Shape)
    → pending ≡ s ∷ ss
    → IsQueue warmed pending
    → IsQueue (s ∷ warmed) (shift_remove pending s) × (has_shape warmed s ≡ false)
IsQueue-warmed warmed pending ss s e q =
    let q' : IsQueue warmed (s ∷ ss) = subst (IsQueue warmed) e q in
    rw (e, shift_remove-head s ss) ((q'.0.1, Apart-insert warmed ss s q'.1.1 q'.0.0), q'.1.0)

quiet_loop-IsQueue :
    (fuel quiet_secs : ℕ) (seconds : ℕ → Second) (k idle : ℕ) (pending warmed : List Shape)
    (r : Bool × List Shape)
    → IsQueue warmed pending
    → quiet_loop fuel quiet_secs seconds k idle pending warmed ≡ some r
    → IsQueue warmed r.1
unfolding quiet_loop
quiet_loop-IsQueue zero quiet_secs seconds k idle pending warmed r q h = cc h
quiet_loop-IsQueue (suc fuel) quiet_secs seconds k idle pending warmed r q h =
    let pending' = drain_rx (seconds k).suspects pending warmed in
    let q' : IsQueue warmed pending' = drain_rx-IsQueue (seconds k).suspects warmed pending q in
    elim (Bool-cases ((seconds k).queue_depth == 0)) [
      | inl e ↦ elim (Bool-cases (leb quiet_secs (suc idle))) [
        | inl f ↦ subst (λ x. IsQueue warmed x.1) (some_inj.0 (rw (e, f, quiet_loop) at h)) q'
        | inr f ↦
            quiet_loop-IsQueue fuel quiet_secs seconds (suc k) (suc idle) pending' warmed r q'
              (rw (e, f, quiet_loop) at h)
      ]
      | inr e ↦ subst (λ x. IsQueue warmed x.1) (some_inj.0 (rw (e, quiet_loop) at h)) q'
    ]

pub wait_for_quiet_window-IsQueue :
    (quiet_secs : ℕ) (seconds : ℕ → Second) (pending warmed : List Shape) (r : Bool × List Shape)
    → IsQueue warmed pending
    → wait_for_quiet_window quiet_secs seconds pending warmed ≡ some r
    → IsQueue warmed r.1
unfolding wait_for_quiet_window
wait_for_quiet_window-IsQueue quiet_secs seconds pending warmed r q h =
    elim (Bool-cases (quiet_secs == 0)) [
      | inl e ↦ subst (λ x. IsQueue warmed x.1) (some_inj.0 (rw (e, wait_for_quiet_window) at h)) q
      | inr e ↦
          quiet_loop-IsQueue quiet_secs quiet_secs seconds 0 0 pending warmed r q
            (rw (e, wait_for_quiet_window) at h)
    ]

pub not_among :
    (warmed ss : List Shape) (s : Shape)
    → has_shape warmed s ≡ true
    → Apart warmed ss
    → has_shape ss s ≡ false
not_among warmed [] s h a = refl
not_among warmed (x ∷ ss) s h a = elim (Bool-cases (same_shape s x)) [
  | inl e ↦ cc (same_has_shape warmed s x e h, a.0)
  | inr e ↦ or_false _ _ (same_shape_comm s x e) (not_among warmed ss s h a.1)
]

pub Apart-fewer :
    (before after ss : List Shape)
    → ((t : Shape) → has_shape before t ≡ true → has_shape after t ≡ true)
    → Apart after ss
    → Apart before ss
Apart-fewer before after [] k a = tt
Apart-fewer before after (s ∷ ss) k a = elim (Bool-cases (has_shape before s)) [
  | inl e ↦ cc (k s e, a.0)
  | inr e ↦ (e, Apart-fewer before after ss k a.1)
]
