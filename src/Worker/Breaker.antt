-- ===== src/Worker/Breaker.antt =====
-- src/embedder/worker/guard.rs: how a worker's circuit breaker counts the outcomes of its calls.
use bge_m3_embedding_server.Prelude.{
  ℕ, suc, ◌+◌, ◌%◌, ◌^◌, ◌<◌, ◌≡◌, ap, ◌∙◌, inl, inr, Bool, true, false, ◌||◌, List, [], ◌∷◌, arith,
  leb, if◌then◌else◌, All, Bool-cases,
}

pub data InferenceOutcome : Type 0 where
  inference_ok failure trt_fatal circuit_break shape_rejected : InferenceOutcome

-- The counter is a `u64`; the threshold is a `usize`, which fits it.
unfoldable pub classify_inference_outcome : Bool → Bool → Bool → ℕ → ℕ → InferenceOutcome
classify_inference_outcome is_fatal guard_rejected is_err consecutive_failures
      circuit_breaker_threshold =
    let next_failures = (consecutive_failures + 1) % 2 ^ 64 in
    if is_fatal
    then trt_fatal
    else if guard_rejected
    then shape_rejected
    else if is_err
    then (if leb circuit_breaker_threshold next_failures then circuit_break else failure)
    else inference_ok

unfoldable pub next_consecutive_failures : InferenceOutcome → ℕ → ℕ
next_consecutive_failures inference_ok n = 0
next_consecutive_failures circuit_break n = 0
next_consecutive_failures failure n = (n + 1) % 2 ^ 64
next_consecutive_failures trt_fatal n = n
next_consecutive_failures shape_rejected n = n

unfoldable pub should_unload_on_outcome : InferenceOutcome → Bool
should_unload_on_outcome circuit_break = true
should_unload_on_outcome inference_ok = false
should_unload_on_outcome failure = false
should_unload_on_outcome trt_fatal = false
should_unload_on_outcome shape_rejected = false

-- The flags of a call that is not fatal.
pub data Call : Type 0 where
  succeeds fails is_refused : Call

abbrev classify_call : ℕ → Call → ℕ → InferenceOutcome
classify_call threshold succeeds n = classify_inference_outcome false false false n threshold
classify_call threshold fails n = classify_inference_outcome false false true n threshold
classify_call threshold is_refused n = classify_inference_outcome false true true n threshold

-- The counter after a sequence of calls, and whether some call of it unloads the models.
unfoldable pub counter_after : ℕ → List Call → ℕ → ℕ
counter_after threshold [] n = n
counter_after threshold (c ∷ cs) n =
    counter_after threshold cs (next_consecutive_failures (classify_call threshold c n) n)

unfoldable pub trips : ℕ → List Call → ℕ → Bool
trips threshold [] n = false
trips threshold (c ∷ cs) n =
    should_unload_on_outcome (classify_call threshold c n)
    || trips threshold cs (next_consecutive_failures (classify_call threshold c n) n)

-- The calls of a sequence that fail.
abbrev pub failures : List Call → ℕ
failures [] = 0
failures (succeeds ∷ cs) = failures cs
failures (fails ∷ cs) = suc (failures cs)
failures (is_refused ∷ cs) = failures cs

abbrev pub IsUnsuccessful : Call → Type 0
IsUnsuccessful succeeds = ⊥
IsUnsuccessful fails = Unit
IsUnsuccessful is_refused = Unit

next-below :
    (threshold : ℕ) (c : Call) (n : ℕ)
    → n < threshold
    → next_consecutive_failures (classify_call threshold c n) n < threshold
unfolding classify_inference_outcome next_consecutive_failures
next-below threshold succeeds n h = omega arith
next-below threshold fails n h = elim (Bool-cases (leb threshold ((n + 1) % 2 ^ 64))) [
  | inl e ↦ rw e (omega arith)
  | inr e ↦ rw e (ground arith)
]
next-below threshold is_refused n h = h

-- Whatever the calls, a counter below the threshold stays below it.
pub counter_after-below :
    (threshold : ℕ) (calls : List Call) (n : ℕ)
    → n < threshold
    → counter_after threshold calls n < threshold
unfolding counter_after
counter_after-below threshold [] n h = h
counter_after-below threshold (c ∷ cs) n h =
    counter_after-below threshold cs _ (next-below threshold c n h)

-- With a threshold that fits 64 bits, and a counter below it, a streak of calls without a success
-- unloads the models at some call exactly if the counter and the failures of the streak together
-- reach the threshold: a refusal of the JIT guard neither counts nor resets.
pub trips_iff :
    (threshold : ℕ) (calls : List Call) (n : ℕ)
    → threshold < 2 ^ 64
    → n < threshold
    → All IsUnsuccessful calls
    → trips threshold calls n ≡ leb threshold (n + failures calls)
unfolding trips classify_inference_outcome next_consecutive_failures should_unload_on_outcome
trips_iff threshold [] n b h a = ground arith
trips_iff threshold (succeeds ∷ cs) n b h a = absurd (a.0)
trips_iff threshold (is_refused ∷ cs) n b h a = trips_iff threshold cs n b h a.1
trips_iff threshold (fails ∷ cs) n b h a = elim (Bool-cases (leb threshold ((n + 1) % 2 ^ 64))) [
  | inl e ↦ rw e (ground arith)
  | inr e ↦ rw e (
      trips_iff threshold cs ((n + 1) % 2 ^ 64) b (ground arith) a.1
      ∙ ap (leb threshold) (omega arith))
]
