-- ===== src/AdaptiveWarmup.antt =====
-- src/embedder/adaptive_warmup.rs: the background task that compiles the shapes of which live
-- requests missed an engine, while the pool is idle. One pass of its loop is a function of what the
-- pass sees of the clock, the channel of suspects and the pool.
pub mod Queue
pub mod Quiet
pub mod Session
mod Tests
use bge_m3_embedding_server.Prelude.{
  ℕ, zero, suc, ◌+◌, ◌-◌, ◌*◌, ◌%◌, ◌^◌, Bool, true, false, not, ◌&&◌, ◌||◌, Option, none, some,
  List, [], ◌∷◌, ◌++◌, ◌==◌, ltb, leb, if◌then◌else◌, is_empty,
}
use bge_m3_embedding_server.AppError.{ok, err, panic}
use bge_m3_embedding_server.Pool.{Delivery, channel_closed, reply_dropped, replied}
use bge_m3_embedding_server.TrtWarmup.{Shape, same_shape, has_shape}
use bge_m3_embedding_server.Worker.Propagation.{insert_shape}

-- Whether the task is enabled is decided before the loop is entered.
pub record AdaptiveWarmupConfig : Type 0 where
  pub enabled : Bool
  pub quiet_secs : ℕ
  pub max_shapes_per_hour : ℕ

-- `pending` is an `IndexSet`, in the order of insertion; `hour_start` is in nanoseconds.
pub record Warmup : Type 0 where
  pub pending : List Shape
  pub warmed : List Shape
  pub shapes_this_hour : ℕ
  pub hour_start : ℕ

-- A suspect that is neither warmed nor pending is inserted at the end.
unfoldable pub insert_suspect : List Shape → List Shape → Shape → List Shape
insert_suspect warmed pending shape =
    if not (has_shape warmed shape) && not (has_shape pending shape)
    then pending ++ shape ∷ []
    else pending

-- The suspects that `try_recv` gives before it fails.
unfoldable pub drain_rx : List Shape → List Shape → List Shape → List Shape
unfolding insert_suspect
drain_rx [] pending warmed = pending
drain_rx (shape ∷ rs) pending warmed = drain_rx rs (insert_suspect warmed pending shape) warmed

-- `IndexSet::shift_remove`
unfoldable pub shift_remove : List Shape → Shape → List Shape
shift_remove [] shape = []
shift_remove (s ∷ ss) shape = if same_shape s shape then ss else s ∷ shift_remove ss shape

-- What one second of the quiet window brings.
pub record Second : Type 0 where
  pub suspects : List Shape
  pub queue_depth : ℕ

-- The loop of `wait_for_quiet_window`, from the second `k` on; nothing if the fuel is used up.
unfoldable pub quiet_loop :
    ℕ → ℕ → (ℕ → Second) → ℕ → ℕ → List Shape → List Shape → Option (Bool × List Shape)
unfolding drain_rx
quiet_loop zero quiet_secs seconds k consecutive_idle pending warmed = none
quiet_loop (suc fuel) quiet_secs seconds k consecutive_idle pending warmed =
    let pending' = drain_rx (seconds k).suspects pending warmed in
    let rest = quiet_loop fuel quiet_secs seconds (suc k) (suc consecutive_idle) pending' warmed in
    if (seconds k).queue_depth == 0
    then (if leb quiet_secs (suc consecutive_idle) then some (true, pending') else rest)
    else some (false, pending')

-- Each second that does not end the wait adds to the idle ones, so `quiet_secs` seconds are enough.
unfoldable pub wait_for_quiet_window :
    ℕ → (ℕ → Second) → List Shape → List Shape → Option (Bool × List Shape)
unfolding quiet_loop
wait_for_quiet_window quiet_secs seconds pending warmed =
    if quiet_secs == 0
    then some (true, pending)
    else quiet_loop quiet_secs quiet_secs seconds 0 0 pending warmed

-- What `select!` gives: a suspect, the end of the channel, or five seconds without either.
pub data Wakeup : Type 0 where
  suspect : Shape → Wakeup
  closed elapsed : Wakeup

-- What one pass of the loop sees.
pub record Seen : Type 0 where
  pub suspects : List Shape
  pub now : ℕ
  pub restart : ℕ
  pub wakeup : Wakeup
  pub queue_depth : ℕ
  pub seconds : ℕ → Second
  pub delivery : Delivery ℕ

-- The pass goes on, and broadcasts a shape or none, or the task ends.
pub data Pass : Type 0 where
  goes_on : Warmup → Option Shape → Pass
  exits : Pass

-- `Duration::from_hours(1)`
abbrev pub hour_nanos : ℕ
hour_nanos = 3600 * 1000000000

unfoldable pub reset_budget : Seen → Warmup → Warmup
reset_budget seen st =
    if leb hour_nanos (seen.now - st.hour_start)
    then record st { shapes_this_hour = 0; hour_start = seen.restart }
    else st

unfoldable pub await_suspect : Wakeup → Warmup → Pass
unfolding insert_suspect
await_suspect (suspect shape) st =
    goes_on (record st { pending = insert_suspect st.warmed st.pending shape }) none
await_suspect closed st = exits
await_suspect elapsed st = goes_on st none

-- What the reply of the worker does. A worker that panics drops its reply.
unfoldable pub settle_shape : Shape → Delivery ℕ → Warmup → Pass
unfolding shift_remove
settle_shape shape channel_closed st = exits
settle_shape shape reply_dropped st =
    goes_on (record st { pending = shift_remove st.pending shape }) none
settle_shape shape (replied panic) st =
    goes_on (record st { pending = shift_remove st.pending shape }) none
settle_shape shape (replied (err e)) st =
    goes_on (record st { pending = shift_remove st.pending shape }) none
settle_shape shape (replied (ok compile_ms)) st =
    goes_on
      (record st {
        pending = shift_remove st.pending shape;
        warmed = insert_shape st.warmed shape;
        shapes_this_hour = (st.shapes_this_hour + 1) % 2 ^ 32;
      })
      (if ltb 0 compile_ms then some shape else none)

-- `if let Some(&shape) = pending.first()`
unfoldable pub fire : List Shape → Delivery ℕ → Warmup → Pass
unfolding settle_shape
fire [] delivery st = goes_on st none
fire (shape ∷ ss) delivery st = settle_shape shape delivery st

unfoldable pub after_quiet : Delivery ℕ → Warmup → Bool × List Shape → Pass
unfolding fire
after_quiet delivery st (confirmed_idle, pending) =
    let st' : Warmup = record st { pending = pending } in
    if confirmed_idle then fire pending delivery st' else goes_on st' none

-- The pass from the guards on; nothing if the wait for a quiet window does not end.
unfoldable pub act : AdaptiveWarmupConfig → Seen → Warmup → Option Pass
unfolding await_suspect wait_for_quiet_window after_quiet
act config seen st =
    if is_empty st.pending || leb config.max_shapes_per_hour st.shapes_this_hour
    then some (await_suspect seen.wakeup st)
    else if ltb 0 seen.queue_depth
    then some (goes_on st none)
    else elim (wait_for_quiet_window config.quiet_secs seen.seconds st.pending st.warmed) [
      | none ↦ none
      | some r ↦ some (after_quiet seen.delivery st r)
    ]

unfoldable pub warmup_pass : AdaptiveWarmupConfig → Seen → Warmup → Option Pass
unfolding drain_rx reset_budget act
warmup_pass config seen st =
    act config seen
      (reset_budget seen (record st { pending = drain_rx seen.suspects st.pending st.warmed }))

-- What a pass broadcasts, and then what the later ones do.
unfoldable pub follow : Pass → (Warmup → List Shape) → List Shape
follow exits later = []
follow (goes_on st none) later = later st
follow (goes_on st (some shape)) later = shape ∷ later st

-- The shapes that the passes of the loop broadcast, in order.
unfoldable pub run_adaptive_warmup_loop : AdaptiveWarmupConfig → List Seen → Warmup → List Shape
unfolding warmup_pass follow
run_adaptive_warmup_loop config [] st = []
run_adaptive_warmup_loop config (seen ∷ passes) st = elim (warmup_pass config seen st) [
  | none ↦ []
  | some p ↦ follow p (run_adaptive_warmup_loop config passes)
]

-- The state in which the loop begins, at a time.
unfoldable pub fresh_warmup : ℕ → Warmup
fresh_warmup now = record { pending = []; warmed = []; shapes_this_hour = 0; hour_start = now }

-- The task broadcasts nothing unless it is enabled.
unfoldable pub spawn_adaptive_warmup : AdaptiveWarmupConfig → ℕ → List Seen → List Shape
unfolding run_adaptive_warmup_loop fresh_warmup
spawn_adaptive_warmup config now passes =
    if config.enabled then run_adaptive_warmup_loop config passes (fresh_warmup now) else []
