-- ===== src/Service/Progress.antt =====
-- src/handler, src/embedder/pool.rs and src/embedder/worker/run.rs: the requests that have been let in
-- come to an end.
use bge_m3_embedding_server.Prelude.{
  ℕ, suc, ◌+◌, ◌≤◌, ◌<◌, ◌≡◌, refl, ap, subst, inl, inr, ◌⊎◌, Bool, true, false, ◌&&◌, Option, none,
  some, List, [], ◌∷◌, ltb, ◌==◌, arith, length, elem, Bool-cases, Option-cases, or_split, not, All,
  is_empty,
}
use mathlib.Core.Option.{some_inj}
use bge_m3_embedding_server.Service.{
  Service, Event, acquire, post, die, idle_exit, cancel, forget, add_permits, send, send_closed,
  take, finish, reply, live, take_front, step, Reach, later,
}
use bge_m3_embedding_server.Service.Invariant.{IsSound, OnSome, Reach-IsSound}
use bge_m3_embedding_server.Service.Work.{is_own, run_events, work, step-Spends, Reach-capacity}

-- A handler waits: for room in the channel, or for its reply.
abbrev pub is_waiting : Service → Bool
is_waiting s = not (is_empty s.sending && is_empty s.awaiting)

abbrev is_some : Option Service → Bool
is_some none = false
is_some (some s) = true

-- What serves a request: a handler that sends it or finds the channel closed, a worker that takes it or
-- finishes it, and a handler that gets its reply. No client leaves, and no worker ends.
abbrev pub serves : Event → Bool
serves acquire = false
serves (send i) = true
serves (send_closed i) = true
serves post = false
serves take = true
serves (finish i) = true
serves (die i) = false
serves idle_exit = false
serves (reply i) = true
serves (cancel i) = false
serves (forget n) = false
serves (add_permits n) = false

abbrev pub CanGoOn : Service → Type 0
CanGoOn s = (e : Event) × (serves e ≡ true) × (is_some (step e s) ≡ true)

-- A request with a worker can be finished.
working-CanGoOn :
    (s : Service) (working : List ℕ) → s.working ≡ working → 0 < length working → CanGoOn s
unfolding step
working-CanGoOn s [] e h = absurd (omega arith)
working-CanGoOn s (i ∷ rest) e h =
    let member : elem i s.working ≡ true = rw e (ground arith) in
    (finish i, refl, rw (member, step) refl)

-- The front of the queue can be taken, or there is a worker that works.
queue-CanGoOn :
    (s : Service) (queue : List ℕ) → IsSound s → s.queue ≡ queue → 0 < length queue → CanGoOn s
unfolding step live take_front
queue-CanGoOn s [] v e h = absurd (omega arith)
queue-CanGoOn s (i ∷ rest) v e h = elim (Bool-cases (ltb 0 s.idle)) [
  | inl g ↦ (take, refl, rw (e, g, step, take_front) refl)
  | inr g ↦
      let queued : length s.queue ≡ suc (length rest) = ap length e in
      elim (Bool-cases (ltb 0 (length s.working))) [
        | inl busy ↦ working-CanGoOn s s.working refl (ground arith)
        | inr free ↦ let gone : live s ≡ 0 = ground arith in absurd (omega (arith, v.attended gone))
      ]
]

length_pos : (i : ℕ) (xs : List ℕ) → elem i xs ≡ true → 0 < length xs
length_pos i [] h = cc h
length_pos i (x ∷ xs) h = omega arith

waiting_sends :
    (sending awaiting : List ℕ)
    → not (is_empty sending && is_empty awaiting) ≡ true
    → length awaiting ≤ 0
    → 0 < length sending
waiting_sends [] [] h n = cc h
waiting_sends [] (a ∷ rest) h n = absurd (omega arith)
waiting_sends (x ∷ xs) awaiting h n = omega arith

-- A reply can be received, or the request can be moved on.
awaiting-CanGoOn :
    (s : Service) (awaiting : List ℕ)
    → IsSound s
    → s.awaiting ≡ awaiting
    → 0 < length awaiting
    → CanGoOn s
unfolding step
awaiting-CanGoOn s [] v e h = absurd (omega arith)
awaiting-CanGoOn s (i ∷ rest) v e h =
    let member : elem i s.awaiting ≡ true = rw e (ground arith) in
    elim (or_split _ _ (v.placed i member)) [
      | inl queued ↦ queue-CanGoOn s s.queue v refl (length_pos i s.queue queued)
      | inr there ↦ elim (or_split _ _ there) [
        | inl busy ↦ working-CanGoOn s s.working refl (length_pos i s.working busy)
        | inr settled ↦ (reply i, refl, rw (member, settled, step) refl)
      ]
    ]

sending-CanGoOn :
    (s : Service) (sending : List ℕ)
    → IsSound s
    → 0 < s.capacity
    → s.sending ≡ sending
    → 0 < length sending
    → CanGoOn s
unfolding step
sending-CanGoOn s [] v c e h = absurd (omega arith)
sending-CanGoOn s (i ∷ rest) v c e h =
    let member : elem i s.sending ≡ true = rw e (ground arith) in
    elim (Bool-cases (live s == 0)) [
      | inl closed ↦ (send_closed i, refl, rw (member, closed, step) refl)
      | inr alive ↦
          let attended : ltb 0 (live s) ≡ true = ground arith in
          elim (Bool-cases (ltb (length s.queue) s.capacity)) [
            | inl room ↦ (send i, refl, rw (member, room, attended, step) refl)
            | inr full ↦ queue-CanGoOn s s.queue v refl (ground arith)
          ]
    ]

-- While a handler waits, a step that serves a request is possible: no state that can be reached with at
-- least one worker is a deadlock, also if no client leaves.
pub Reach-CanGoOn :
    {workers : ℕ} {s : Service} → Reach workers s → 0 < workers → is_waiting s ≡ true → CanGoOn s
Reach-CanGoOn {workers} {s} r w h =
    let v = Reach-IsSound r in
    elim (Bool-cases (ltb 0 (length s.awaiting))) [
      | inl some_await ↦ awaiting-CanGoOn s s.awaiting v refl (ground arith)
      | inr none_awaits ↦
          sending-CanGoOn s s.sending v (omega (arith, Reach-capacity r)) refl
            (waiting_sends s.sending s.awaiting h (ground arith))
    ]

abbrev IsResolved : Service → Type 0
IsResolved s = (is_waiting s ≡ false) ⊎ CanGoOn s

resolved : {workers : ℕ} {s : Service} → Reach workers s → 0 < workers → IsResolved s
resolved {s = s} r w = elim (Bool-cases (is_waiting s)) [
  | inl waits ↦ inr (Reach-CanGoOn r w waits)
  | inr rests ↦ inl rests
]

-- The steps of the server, the workers and the clients that leave, one after the other, come to an end: there are at most as many
-- as there is work. After them, no handler waits, or a step that serves a request is possible: a request is sent, refused by the closed
-- channel, taken, finished or answered. It is none by which a client leaves or a worker ends.
pub run_events-ends :
    {workers : ℕ} {s t : Service} (es : List Event)
    → Reach workers s
    → 0 < workers
    → All (λ e. is_own e ≡ true) es
    → run_events es s ≡ some t
    → (length es + work t ≤ work s) × ((is_waiting t ≡ false) ⊎ CanGoOn t)
run_events-ends {s} {t} [] r w own h =
    let same : s ≡ t = some_inj.0 h in (rw same (omega arith), subst IsResolved same (resolved r w))
run_events-ends {s} (e ∷ es) r w own h = elim (Option-cases (step e s)) [
  | inl n ↦ cc (rw (n, run_events) at h)
  | inr (u, y) ↦
      let spent : work u < work s =
        subst (OnSome (λ t'. work t' < work s)) y (step-Spends e s own.0) in
      let rest = run_events-ends es (later e r y) w own.1 (rw (y, run_events) at h) in
      (omega (arith, rest.0, spent), rest.1)
]
