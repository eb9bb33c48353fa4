-- ===== src/AdaptiveWarmup/Session.antt =====
-- src/embedder/adaptive_warmup.rs: what holds of the shapes of a session of the task.
use bge_m3_embedding_server.Prelude.{
  ℕ, ◌+◌, ◌-◌, ◌%◌, ◌^◌, ◌≤◌, ◌<◌, ◌≡◌, refl, subst, inl, inr, Bool, true, false, ◌||◌, none, some,
  List, [], ◌∷◌, arith, ltb, leb, is_empty, Bool-cases, or_right,
}
use bge_m3_embedding_server.AppError.{ok, err, panic}
use bge_m3_embedding_server.Pool.{Delivery, channel_closed, reply_dropped, replied}
use bge_m3_embedding_server.TrtWarmup.{Shape, same_shape, has_shape}
use bge_m3_embedding_server.TrtWarmup.Coverage.{same_shape_refl}
use bge_m3_embedding_server.AdaptiveWarmup.{
  AdaptiveWarmupConfig, Warmup, Seen, Pass, goes_on, exits, drain_rx, act, reset_budget,
  await_suspect, Wakeup, suspect, closed, elapsed, settle_shape, fire, after_quiet, warmup_pass,
  hour_nanos, run_adaptive_warmup_loop, follow, fresh_warmup, spawn_adaptive_warmup,
}
use bge_m3_embedding_server.AdaptiveWarmup.Queue.{
  Distinct, IsQueue, or_false_right, insert_suspect-IsQueue, drain_rx-IsQueue, IsQueue-dropped,
  IsQueue-warmed, wait_for_quiet_window-IsQueue, not_among, Apart-fewer,
}
use bge_m3_embedding_server.AdaptiveWarmup.Quiet.{all_idle, wait_for_quiet_window-ends}

abbrev pub IsSound : AdaptiveWarmupConfig → Warmup → Type 0
IsSound config st =
    IsQueue st.warmed st.pending
    × Distinct st.warmed
    × (st.shapes_this_hour ≤ config.max_shapes_per_hour)

abbrev pub IsSoundPass : AdaptiveWarmupConfig → Pass → Type 0
IsSoundPass config (goes_on st broadcast) = IsSound config st
IsSoundPass config exits = Unit

-- What a pass adds to the warmed shapes: nothing is lost, and what it broadcasts was not among them
-- and is now.
abbrev pub Advances : List Shape → Pass → Type 0
Advances before exits = Unit
Advances before (goes_on st none) =
    (t : Shape) → has_shape before t ≡ true → has_shape st.warmed t ≡ true
Advances before (goes_on st (some s)) =
    (has_shape before s ≡ false)
    × (has_shape st.warmed s ≡ true)
    × ((t : Shape) → has_shape before t ≡ true → has_shape st.warmed t ≡ true)

abbrev pub IsGood : AdaptiveWarmupConfig → List Shape → Pass → Type 0
IsGood config before p = IsSoundPass config p × Advances before p

settle_shape-IsGood :
    (config : AdaptiveWarmupConfig) (s : Shape) (ss : List Shape) (d : Delivery ℕ) (st : Warmup)
    → config.max_shapes_per_hour < 2 ^ 32
    → st.pending ≡ s ∷ ss
    → IsSound config st
    → st.shapes_this_hour < config.max_shapes_per_hour
    → IsGood config st.warmed (settle_shape s d st)
unfolding settle_shape
settle_shape-IsGood config s ss channel_closed st b e h lt = (tt, tt)
settle_shape-IsGood config s ss reply_dropped st b e h lt =
    ((IsQueue-dropped st.warmed st.pending ss s e h.0, h.1, h.2), λ t k. k)
settle_shape-IsGood config s ss (replied panic) st b e h lt =
    ((IsQueue-dropped st.warmed st.pending ss s e h.0, h.1, h.2), λ t k. k)
settle_shape-IsGood config s ss (replied (err f)) st b e h lt =
    ((IsQueue-dropped st.warmed st.pending ss s e h.0, h.1, h.2), λ t k. k)
settle_shape-IsGood config s ss (replied (ok compile_ms)) st b e h lt =
    let (queue, new) = IsQueue-warmed st.warmed st.pending ss s e h.0 in
    let head : has_shape (s ∷ st.warmed) s ≡ true = rw (same_shape_refl s) refl in
    let keeps : (t : Shape) → has_shape st.warmed t ≡ true → has_shape (s ∷ st.warmed) t ≡ true =
      λ t k. or_right (same_shape s t) _ k in
    let budget : (st.shapes_this_hour + 1) % 2 ^ 32 ≤ config.max_shapes_per_hour = omega arith in
    elim (Bool-cases (ltb 0 compile_ms)) [
      | inl f ↦ rw (new, f) ((queue, (new, h.1), budget), (new, head, keeps))
      | inr f ↦ rw (new, f) ((queue, (new, h.1), budget), keeps)
    ]

fire-IsGood :
    (config : AdaptiveWarmupConfig) (pending : List Shape) (d : Delivery ℕ) (st : Warmup)
    → config.max_shapes_per_hour < 2 ^ 32
    → st.pending ≡ pending
    → IsSound config st
    → st.shapes_this_hour < config.max_shapes_per_hour
    → IsGood config st.warmed (fire pending d st)
unfolding fire
fire-IsGood config [] d st b e h lt = (h, λ t k. k)
fire-IsGood config (s ∷ ss) d st b e h lt = settle_shape-IsGood config s ss d st b e h lt

await_suspect-IsGood :
    (config : AdaptiveWarmupConfig) (w : Wakeup) (st : Warmup)
    → IsSound config st
    → IsGood config st.warmed (await_suspect w st)
unfolding await_suspect
await_suspect-IsGood config (suspect s) st h =
    ((insert_suspect-IsQueue st.warmed st.pending s h.0, h.1, h.2), λ t k. k)
await_suspect-IsGood config closed st h = (tt, tt)
await_suspect-IsGood config elapsed st h = (h, λ t k. k)

after_quiet-IsGood :
    (config : AdaptiveWarmupConfig) (d : Delivery ℕ) (st : Warmup) (r : Bool × List Shape)
    → config.max_shapes_per_hour < 2 ^ 32
    → IsSound config st
    → IsQueue st.warmed r.1
    → st.shapes_this_hour < config.max_shapes_per_hour
    → IsGood config st.warmed (after_quiet d st r)
unfolding after_quiet
after_quiet-IsGood config d st (true, pending) b h q lt =
    fire-IsGood config pending d (record st { pending = pending }) b refl (q, h.1, h.2) lt
after_quiet-IsGood config d st (false, pending) b h q lt = ((q, h.1, h.2), λ t k. k)

reset_budget-IsSound :
    (config : AdaptiveWarmupConfig) (seen : Seen) (st : Warmup)
    → IsSound config st
    → IsSound config (reset_budget seen st) × ((reset_budget seen st).warmed ≡ st.warmed)
unfolding reset_budget
reset_budget-IsSound config seen st h =
    elim (Bool-cases (leb hour_nanos (seen.now - st.hour_start))) [
      | inl e ↦ rw (e, reset_budget) ((h.0, h.1, omega arith), refl)
      | inr e ↦ rw (e, reset_budget) (h, refl)
    ]

act-IsGood :
    (config : AdaptiveWarmupConfig) (seen : Seen) (st : Warmup)
    → config.max_shapes_per_hour < 2 ^ 32
    → IsSound config st
    → (p : Pass) × (act config seen st ≡ some p) × IsGood config st.warmed p
unfolding act
act-IsGood config seen st b h =
    elim (Bool-cases (is_empty st.pending || leb config.max_shapes_per_hour st.shapes_this_hour)) [
      | inl e ↦
          rw (e, act)
            (await_suspect seen.wakeup st, refl, await_suspect-IsGood config seen.wakeup st h)
      | inr e ↦ elim (Bool-cases (ltb 0 seen.queue_depth)) [
        | inl f ↦ rw (e, f, act) (goes_on st none, refl, (h, λ t k. k))
        | inr f ↦
            let (pending, w) =
              wait_for_quiet_window-ends config.quiet_secs seen.seconds st.pending st.warmed in
            let r : Bool × List Shape = (all_idle config.quiet_secs 0 seen.seconds, pending) in
            let q =
              wait_for_quiet_window-IsQueue config.quiet_secs seen.seconds st.pending st.warmed r
                h.0 w in
            let under = or_false_right (is_empty st.pending) _ e in
            let lt : st.shapes_this_hour < config.max_shapes_per_hour = ground arith in
            rw (e, f, w, act)
              (
                after_quiet seen.delivery st r,
                refl,
                after_quiet-IsGood config seen.delivery st r b h q lt,
              )
      ]
    ]

-- With an hourly limit that fits 32 bits, a pass of the loop always comes to its end, and it keeps these facts: the pending shapes
-- are distinct and not warmed, the warmed ones are distinct, and the compiles of the hour do not
-- exceed the limit. What it broadcasts was not warmed before and is warmed now,
-- and no warmed shape is lost.
pub warmup_pass-IsGood :
    (config : AdaptiveWarmupConfig) (seen : Seen) (st : Warmup)
    → config.max_shapes_per_hour < 2 ^ 32
    → IsSound config st
    → (p : Pass) × (warmup_pass config seen st ≡ some p) × IsGood config st.warmed p
unfolding warmup_pass
warmup_pass-IsGood config seen st b h =
    let drained : Warmup = record st { pending = drain_rx seen.suspects st.pending st.warmed } in
    let h' : IsSound config drained =
      (drain_rx-IsQueue seen.suspects st.warmed st.pending h.0, h.1, h.2) in
    let (sound, same) = reset_budget-IsSound config seen drained h' in
    let (p, runs, good) = act-IsGood config seen (reset_budget seen drained) b sound in
    (p, runs, (good.0, subst (λ w. Advances w p) same good.1))

follow-IsQueue :
    (config : AdaptiveWarmupConfig) (before : List Shape) (p : Pass) (later : Warmup → List Shape)
    → ((st : Warmup) → IsSound config st → IsQueue st.warmed (later st))
    → IsGood config before p
    → IsQueue before (follow p later)
unfolding follow
follow-IsQueue config before exits later k g = (tt, tt)
follow-IsQueue config before (goes_on st none) later k g =
    let q = k st g.0 in (q.0, Apart-fewer before st.warmed (later st) g.1 q.1)
follow-IsQueue config before (goes_on st (some s)) later k g =
    let q = k st g.0 in
    (
      (not_among st.warmed (later st) s g.1.1 q.1, q.0),
      (g.1.0, Apart-fewer before st.warmed (later st) g.1.2 q.1),
    )

run-IsQueue :
    (config : AdaptiveWarmupConfig) (passes : List Seen) (st : Warmup)
    → config.max_shapes_per_hour < 2 ^ 32
    → IsSound config st
    → IsQueue st.warmed (run_adaptive_warmup_loop config passes st)
unfolding run_adaptive_warmup_loop
run-IsQueue config [] st b h = (tt, tt)
run-IsQueue config (seen ∷ passes) st b h =
    let (p, runs, good) = warmup_pass-IsGood config seen st b h in
    rw (runs, run_adaptive_warmup_loop)
      (follow-IsQueue config st.warmed p (run_adaptive_warmup_loop config passes)
        (λ st' h'. run-IsQueue config passes st' b h') good)

-- With an hourly limit that fits 32 bits, the task never broadcasts a shape twice in a session,
-- whatever it sees: a compiled shape is not compiled again.
pub spawn_adaptive_warmup-Distinct :
    (config : AdaptiveWarmupConfig) (now : ℕ) (passes : List Seen)
    → config.max_shapes_per_hour < 2 ^ 32
    → Distinct (spawn_adaptive_warmup config now passes)
unfolding spawn_adaptive_warmup fresh_warmup
spawn_adaptive_warmup-Distinct config now passes b = elim (Bool-cases config.enabled) [
  | inl e ↦
      rw (e, spawn_adaptive_warmup)
        ((run-IsQueue config passes (fresh_warmup now) b (((tt, tt), tt, omega arith))).0)
  | inr e ↦ rw (e, spawn_adaptive_warmup) tt
]
