-- ===== src/AdaptiveWarmup/Quiet.antt =====
-- src/embedder/adaptive_warmup.rs: the quiet window ends, and what it answers.
use bge_m3_embedding_server.Prelude.{
  ℕ, zero, suc, ◌+◌, ◌≡◌, refl, inl, inr, Bool, true, false, ◌&&◌, some, List, arith, ◌==◌, leb,
  Bool-cases, le→leb,
}
use bge_m3_embedding_server.TrtWarmup.{Shape}
use bge_m3_embedding_server.AdaptiveWarmup.{Second, quiet_loop, drain_rx, wait_for_quiet_window}

-- Whether the queue is empty in each of the `n` seconds from the second `k` on.
abbrev pub all_idle : ℕ → ℕ → (ℕ → Second) → Bool
all_idle zero k seconds = true
all_idle (suc n) k seconds = ((seconds k).queue_depth == 0) && all_idle n (suc k) seconds

quiet_loop-ends :
    (fuel quiet_secs : ℕ) (seconds : ℕ → Second) (k idle : ℕ) (pending warmed : List Shape)
    → idle + suc fuel ≡ quiet_secs
    → (pending' : List Shape) × (quiet_loop (suc fuel) quiet_secs seconds k idle pending warmed
        ≡ some (all_idle (suc fuel) k seconds, pending'))
unfolding quiet_loop
quiet_loop-ends zero quiet_secs seconds k idle pending warmed h =
    elim (Bool-cases ((seconds k).queue_depth == 0)) [
      | inl e ↦ rw (e, le→leb quiet_secs (suc idle) (omega arith)) (_, refl)
      | inr e ↦ rw e (_, refl)
    ]
quiet_loop-ends (suc fuel) quiet_secs seconds k idle pending warmed h =
    elim (Bool-cases ((seconds k).queue_depth == 0)) [
      | inl e ↦
          let rest =
            quiet_loop-ends fuel quiet_secs seconds (suc k) (suc idle)
              (drain_rx (seconds k).suspects pending warmed) warmed (omega arith) in
          let more : leb quiet_secs (suc idle) ≡ false = ground arith in rw (e, more) rest
      | inr e ↦ rw e (_, refl)
    ]

-- The wait for a quiet window always ends, after at most `quiet_secs` seconds, and answers whether
-- the queue was empty in each of them.
pub wait_for_quiet_window-ends :
    (quiet_secs : ℕ) (seconds : ℕ → Second) (pending warmed : List Shape)
    → (pending' : List Shape) × (wait_for_quiet_window quiet_secs seconds pending warmed
        ≡ some (all_idle quiet_secs 0 seconds, pending'))
unfolding wait_for_quiet_window
wait_for_quiet_window-ends zero seconds pending warmed = (pending, refl)
wait_for_quiet_window-ends (suc n) seconds pending warmed =
    let positive : (suc n == 0) ≡ false = ground arith in
    rw (positive, wait_for_quiet_window)
      (quiet_loop-ends n (suc n) seconds 0 0 pending warmed (omega arith))
