-- ===== src/Service/Work.antt =====
-- src/embedder/pool.rs and the request loop: each step of the server spends work, and none changes the capacity.
use bge_m3_embedding_server.Prelude.{
  ℕ, suc, ◌+◌, ◌-◌, ◌*◌, ◌≤◌, ◌<◌, ◌≡◌, refl, ap, ◌∙◌, subst, inl, inr, Bool, true, false, ◌&&◌,
  Option, none, some, List, [], ◌∷◌, ltb, leb, ◌==◌, arith, if◌then◌else◌, length, length-append,
  elem, remove, length-remove, Bool-cases, and_both,
}
use bge_m3_embedding_server.Service.{
  Service, Event, acquire, send, send_closed, post, take, finish, die, idle_exit, reply, cancel,
  forget, add_permits, live, close, take_front, release, step, start, Reach, here, later,
}
use bge_m3_embedding_server.Service.Invariant.{OnSome}

abbrev pub is_own : Event → Bool
is_own acquire = false
is_own (send i) = true
is_own (send_closed i) = true
is_own post = false
is_own take = true
is_own (finish i) = true
is_own (die i) = true
is_own idle_exit = true
is_own (reply i) = true
is_own (cancel i) = true
is_own (forget n) = false
is_own (add_permits n) = false

-- Steps one after the other, if each is possible.
abbrev pub run_events : List Event → Service → Option Service
run_events [] s = some s
run_events (e ∷ es) s = elim (step e s) [ none ↦ none | some t ↦ run_events es t ]

-- What is left to do, at most.
abbrev pub work : Service → ℕ
work s =
    4 * length s.sending + (2 * length s.queue + (length s.working + (length s.awaiting + live s)))

abbrev pub Spends : Service → Option Service → Type 0
Spends s o = OnSome (λ t. work t < work s) o

close-work : (s : Service) → work (close s) ≤ work s
unfolding close live
close-work s = elim (Bool-cases (live s == 0)) [
  | inl e ↦ rw (e, close) (omega arith)
  | inr e ↦ rw (e, close) (omega arith)
]

take_front-Spends : (s : Service) (queue : List ℕ) → s.queue ≡ queue → Spends s (take_front s queue)
unfolding take_front live
take_front-Spends s [] e = tt
take_front-Spends s (i ∷ rest) e = elim (Bool-cases (ltb 0 s.idle)) [
  | inl g ↦
      let shorter : length s.queue ≡ suc (length rest) = ap length e in
      let fewer : s.idle - 1 + 1 ≡ s.idle = ground arith in
      rw (g, take_front) (omega (arith, shorter, fewer))
  | inr g ↦ rw (g, take_front) tt
]

pub step-Spends : (e : Event) (s : Service) → is_own e ≡ true → Spends s (step e s)
unfolding step live release
step-Spends acquire s h = cc h
step-Spends (send i) s h =
    elim (Bool-cases (elem i s.sending && (ltb (length s.queue) s.capacity && ltb 0 (live s)))) [
      | inl g ↦
          rw (g, step)
            (omega
              (arith, length-remove i s.sending (and_both _ _ g).0, length-append s.queue (i ∷ [])))
      | inr g ↦ rw (g, step) tt
    ]
step-Spends (send_closed i) s h = elim (Bool-cases (elem i s.sending && live s == 0)) [
  | inl g ↦ rw (g, step) (omega (arith, length-remove i s.sending (and_both _ _ g).0))
  | inr g ↦ rw (g, step) tt
]
step-Spends post s h = cc h
step-Spends take s h = take_front-Spends s s.queue refl
step-Spends (finish i) s h = elim (Bool-cases (elem i s.working)) [
  | inl g ↦ rw (g, step) (omega (arith, length-remove i s.working g))
  | inr g ↦ rw (g, step) tt
]
step-Spends (die i) s h = elim (Bool-cases (elem i s.working)) [
  | inl g ↦
      let gone = record s { working = remove i s.working; settled = i ∷ s.settled } in
      rw (g, step) (omega (arith, close-work gone, length-remove i s.working g))
  | inr g ↦ rw (g, step) tt
]
step-Spends idle_exit s h = elim (Bool-cases (ltb 0 s.idle)) [
  | inl g ↦
      let fewer : s.idle - 1 < s.idle = ground arith in
      rw (g, step) (omega (arith, close-work (record s { idle = s.idle - 1 }), fewer))
  | inr g ↦ rw (g, step) tt
]
step-Spends (reply i) s h = elim (Bool-cases (elem i s.awaiting && elem i s.settled)) [
  | inl g ↦ rw (g, step) (omega (arith, length-remove i s.awaiting (and_both _ _ g).0))
  | inr g ↦ rw (g, step) tt
]
step-Spends (cancel i) s h = elim (Bool-cases (elem i s.awaiting)) [
  | inl g ↦ rw (g, release) (omega (arith, length-remove i s.awaiting g))
  | inr g ↦ elim (Bool-cases (elem i s.sending)) [
    | inl k ↦ rw (g, k, release) (omega (arith, length-remove i s.sending k))
    | inr k ↦ rw (g, k, release) tt
  ]
]
step-Spends (forget n) s h = cc h
step-Spends (add_permits n) s h = cc h

pub when_keeps :
    (n : ℕ) (b : Bool) (t : Service)
    → t.capacity ≡ n
    → OnSome (λ u. u.capacity ≡ n) (if b then some t else none)
when_keeps n true t p = p
when_keeps n false t p = tt

close-capacity : (s : Service) → (close s).capacity ≡ s.capacity
unfolding close
close-capacity s = elim (Bool-cases (live s == 0)) [
  | inl e ↦ rw (e, close) refl
  | inr e ↦ rw (e, close) refl
]

step-capacity : (e : Event) (s : Service) → OnSome (λ t. t.capacity ≡ s.capacity) (step e s)
unfolding step take_front release
step-capacity acquire s = when_keeps s.capacity (ltb 0 s.permits) _ refl
step-capacity (send i) s =
    when_keeps s.capacity (elem i s.sending && (ltb (length s.queue) s.capacity && ltb 0 (live s)))
      _ refl
step-capacity (send_closed i) s = when_keeps s.capacity (elem i s.sending && live s == 0) _ refl
step-capacity post s =
    when_keeps s.capacity (ltb (length s.queue) s.capacity && ltb 0 (live s)) _ refl
step-capacity take s = take_front-capacity s.queue
  where
    take_front-capacity :
        (queue : List ℕ) → OnSome (λ t. t.capacity ≡ s.capacity) (take_front s queue)
    take_front-capacity [] = tt
    take_front-capacity (i ∷ rest) = when_keeps s.capacity (ltb 0 s.idle) _ refl
step-capacity (finish i) s = when_keeps s.capacity (elem i s.working) _ refl
step-capacity (die i) s =
    when_keeps s.capacity (elem i s.working) _
      (close-capacity (record s { working = remove i s.working; settled = i ∷ s.settled }))
step-capacity idle_exit s =
    when_keeps s.capacity (ltb 0 s.idle) _ (close-capacity (record s { idle = s.idle - 1 }))
step-capacity (reply i) s = when_keeps s.capacity (elem i s.awaiting && elem i s.settled) _ refl
step-capacity (cancel i) s = elim (Bool-cases (elem i s.awaiting)) [
  | inl g ↦ rw (g, release) refl
  | inr g ↦ rw (g, release) (when_keeps s.capacity (elem i s.sending) _ refl)
]
step-capacity (forget n) s = when_keeps s.capacity (leb n s.permits) _ refl
step-capacity (add_permits n) s = refl

pub Reach-capacity : {workers : ℕ} {s : Service} → Reach workers s → s.capacity ≡ workers * 4
unfolding start
Reach-capacity here = refl
Reach-capacity (later {s} {t} e r h) =
    subst (OnSome (λ t'. t'.capacity ≡ s.capacity)) h (step-capacity e s) ∙ Reach-capacity r
