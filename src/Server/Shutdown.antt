-- ===== src/Server/Shutdown.antt =====
-- src/lib.rs: the end of the wait for the workers to exit.
use bge_m3_embedding_server.Prelude.{
  ℕ, zero, suc, ◌+◌, ◌*◌, ◌≤◌, ◌≡◌, refl, ◌∙◌, ◌<◌, inl, inr, Bool, true, false, ◌||◌, some, leb,
  ◌==◌, arith, Bool-cases,
}
use bge_m3_embedding_server.Server.{wait_for_workers_to_exit}

module _ (live now : ℕ → ℕ) (deadline : ℕ) where
  -- The workers have exited at the poll, or the time is over.
  abbrev pub is_last : ℕ → Bool
  is_last k = live k == 0 || leb deadline (now k)

  stops :
      (n k : ℕ)
      → is_last k ≡ true
      → wait_for_workers_to_exit (suc n) live now deadline k ≡ some (live k == 0)
  unfolding wait_for_workers_to_exit
  stops n k h = elim (Bool-cases (live k == 0)) [
    | inl gone ↦ rw (gone, wait_for_workers_to_exit) refl
    | inr here ↦
        let late : leb deadline (now k) ≡ true = rw here at h in
        rw (here, late, wait_for_workers_to_exit) refl
  ]

  goes_on :
      (n k : ℕ)
      → is_last k ≡ false
      → wait_for_workers_to_exit (suc n) live now deadline k
        ≡ wait_for_workers_to_exit n live now deadline (suc k)
  unfolding wait_for_workers_to_exit
  goes_on n k h = elim (Bool-cases (live k == 0)) [
    | inl gone ↦ cc (rw gone at h)
    | inr here ↦
        let early : leb deadline (now k) ≡ false = rw here at h in
        rw (here, early, wait_for_workers_to_exit) refl
  ]

  IsEnd : ℕ → ℕ → ℕ → Type 0
  IsEnd fuel k j =
      (k ≤ j)
      × (j < fuel + k)
      × (wait_for_workers_to_exit fuel live now deadline k ≡ some (live j == 0))
      × (is_last j ≡ true)

  module _ (sleeps : (k : ℕ) → now k + 100 ≤ now (suc k)) where
    -- The waiting from the `k`-th poll on, with polls enough for the time that is left.
    polls-IsEnd : (n k : ℕ) → deadline ≤ now k + 100 * n → (j : ℕ) × IsEnd (suc n) k j
    unfolding IsEnd
    polls-IsEnd zero k h =
        let over : leb deadline (now k) ≡ true = ground arith in
        let last : is_last k ≡ true = elim (Bool-cases (live k == 0)) [
          | inl gone ↦ rw gone refl
          | inr here ↦ rw (here, over) refl
        ] in
        (k, (omega arith, omega arith, stops zero k last, last))
    polls-IsEnd (suc n) k h = elim (Bool-cases (is_last k)) [
      | inl last ↦ (k, (omega arith, omega arith, stops (suc n) k last, last))
      | inr e ↦
          let step = sleeps k in
          let (j, (above, below, answer, last)) = polls-IsEnd n (suc k) (omega arith) in
          (j, (omega arith, omega arith, goes_on (suc n) k e ∙ answer, last))
    ]

    -- If each poll comes at least 100 milliseconds after the one before it, and the deadline is at most `n` times
    -- that after the first poll, then the wait for the workers ends after at most `n` sleeps, and it answers
    -- whether the workers had exited at its last poll, which is one where they had or the deadline was reached.
    pub wait_for_workers_to_exit-ends :
        (n : ℕ)
        → deadline ≤ now 0 + 100 * n
        → (j : ℕ) × (j ≤ n)
          × (wait_for_workers_to_exit (suc n) live now deadline 0 ≡ some (live j == 0))
          × (is_last j ≡ true)
    unfolding IsEnd
    wait_for_workers_to_exit-ends n h =
        let (j, (above, below, answer, last)) = polls-IsEnd n 0 h in (j, omega arith, answer, last)
