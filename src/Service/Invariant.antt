-- ===== src/Service/Invariant.antt =====
-- src/handler, src/embedder/pool.rs and src/embedder/worker/run.rs: what holds in each state that the
-- requests, the workers and the probe can bring about.
use bge_m3_embedding_server.Prelude.{
  ℕ, suc, ◌+◌, ◌-◌, ◌≤◌, ◌≡◌, refl, ap, subst, inl, inr, Bool, true, ◌&&◌, ◌||◌, Option, none, some,
  List, [], ◌∷◌, ◌++◌, ltb, leb, ◌==◌, arith, length, length-append, elem, remove, elem-append,
  elem-remove, elem-of_remove, length-remove, Bool-cases, and_both,
}
use bge_m3_embedding_server.Service.{
  Service, Event, acquire, send, send_closed, post, take, finish, die, idle_exit, reply, cancel,
  forget, add_permits, live, close, take_front, release, step, start, Reach, here, later,
}

-- The request is in the queue, with a worker, or its reply sender was used or dropped.
abbrev pub is_placed : Service → ℕ → Bool
is_placed s i = elem i s.queue || (elem i s.working || elem i s.settled)

pub record IsSound (s : Service) : Type 0 where
  pub counted : s.permits + (length s.sending + length s.awaiting) ≡ s.limit
  pub fits : length s.queue ≤ s.capacity
  pub attended : live s ≡ 0 → length s.queue ≡ 0
  pub placed : (i : ℕ) → elem i s.awaiting ≡ true → is_placed s i ≡ true

abbrev pub OnSome : (Service → Type 0) → Option Service → Type 0
OnSome P none = Unit {0}
OnSome P (some s) = P s

-- A request that awaits its reply is still placed, where each place that it can be in is kept.
finish-placed :
    (i j : ℕ) (queue working settled : List ℕ)
    → (elem j queue || (elem j working || elem j settled)) ≡ true
    → (elem j queue || (elem j (remove i working) || elem j (i ∷ settled))) ≡ true
finish-placed i j queue working settled h = elim (Bool-cases (i == j)) [
  | inl e ↦ rw e (ground arith)
  | inr e ↦ ground (arith, elem-remove j i working)
]

snoc-placed :
    (i j : ℕ) (queue : List ℕ) (rest : Bool)
    → (elem j queue || rest) ≡ true
    → (elem j (queue ++ i ∷ []) || rest) ≡ true
snoc-placed i j queue rest h = rw (elem-append j queue (i ∷ [])) (ground arith)

last-placed :
    (i j : ℕ) (queue : List ℕ) (rest : Bool)
    → (i == j) ≡ true
    → (elem j (queue ++ i ∷ []) || rest) ≡ true
last-placed i j queue rest h = rw (elem-append j queue (i ∷ []), h) (ground arith)

close-IsSound :
    (s : Service)
    → s.permits + (length s.sending + length s.awaiting) ≡ s.limit
    → length s.queue ≤ s.capacity
    → ((i : ℕ) → elem i s.awaiting ≡ true → is_placed s i ≡ true)
    → IsSound (close s)
unfolding close live
close-IsSound s c f p = elim (Bool-cases (live s == 0)) [
  | inl e ↦
      rw (e, close)
        (record {
          counted = c;
          fits = omega arith;
          attended = λ _. refl;
          placed = λ i m. rw (elem-append i s.queue s.settled) (ground (arith, p i m));
        })
  | inr e ↦
      rw (e, close)
        (record { counted = c; fits = f; attended = λ z. absurd (ground arith); placed = p })
]

take_front-IsSound :
    (s : Service) (queue : List ℕ)
    → s.queue ≡ queue
    → IsSound s
    → OnSome IsSound (take_front s queue)
unfolding take_front live
take_front-IsSound s [] e v = tt
take_front-IsSound s (i ∷ rest) e v = elim (Bool-cases (ltb 0 s.idle)) [
  | inl g ↦
      let shorter : length s.queue ≡ suc (length rest) = ap length e in
      rw (g, take_front)
        (record {
          counted = v.counted;
          fits = omega (arith, v.fits, shorter);
          attended = λ z. absurd (omega arith);
          placed = λ j m.
              let p =
                subst (λ q. (elem j q || (elem j s.working || elem j s.settled)) ≡ true) e
                  (v.placed j m) in
              ground arith;
        })
  | inr g ↦ rw (g, take_front) tt
]

release-IsSound : (s : Service) (i : ℕ) → IsSound s → OnSome IsSound (release i s)
unfolding release live
release-IsSound s i v = elim (Bool-cases (elem i s.awaiting)) [
  | inl g ↦
      rw (g, release)
        (record {
          counted = omega (arith, v.counted, length-remove i s.awaiting g);
          fits = v.fits;
          attended = v.attended;
          placed = λ j m. v.placed j (elem-of_remove j i s.awaiting m);
        })
  | inr g ↦ elim (Bool-cases (elem i s.sending)) [
    | inl h ↦
        rw (g, h, release)
          (record {
            counted = omega (arith, v.counted, length-remove i s.sending h);
            fits = v.fits;
            attended = v.attended;
            placed = v.placed;
          })
    | inr h ↦ rw (g, h, release) tt
  ]
]

step-IsSound : (e : Event) (s : Service) → IsSound s → OnSome IsSound (step e s)
unfolding step live
step-IsSound acquire s v = elim (Bool-cases (ltb 0 s.permits)) [
  | inl g ↦
      rw (g, step)
        (record {
          counted = ground (arith, v.counted);
          fits = v.fits;
          attended = v.attended;
          placed = v.placed;
        })
  | inr g ↦ rw (g, step) tt
]
step-IsSound (send i) s v =
    elim (Bool-cases (elem i s.sending && (ltb (length s.queue) s.capacity && ltb 0 (live s)))) [
      | inl g ↦
          let (member, there) : (elem i s.sending ≡ true)
              × ((ltb (length s.queue) s.capacity && ltb 0 (live s)) ≡ true) =
            and_both _ _ g in
          let (room, alive) : (ltb (length s.queue) s.capacity ≡ true) × (ltb 0 (live s) ≡ true) =
            and_both _ _ there in
          rw (g, step)
            (record {
              counted = omega (arith, v.counted, length-remove i s.sending member);
              fits = rw (length-append s.queue (i ∷ [])) (ground arith);
              attended = λ z. absurd (ground arith);
              placed = λ j m. elim (Bool-cases (i == j)) [
                | inl e ↦ last-placed i j s.queue (elem j s.working || elem j s.settled) e
                | inr e ↦
                    snoc-placed i j s.queue (elem j s.working || elem j s.settled)
                      (v.placed j (rw e at m))
              ];
            })
      | inr g ↦ rw (g, step) tt
    ]
step-IsSound (send_closed i) s v = elim (Bool-cases (elem i s.sending && live s == 0)) [
  | inl g ↦
      let member : elem i s.sending ≡ true = (and_both _ _ g).0 in
      rw (g, step)
        (record {
          counted = omega (arith, v.counted, length-remove i s.sending member);
          fits = v.fits;
          attended = v.attended;
          placed = v.placed;
        })
  | inr g ↦ rw (g, step) tt
]
step-IsSound post s v = elim (Bool-cases (ltb (length s.queue) s.capacity && ltb 0 (live s))) [
  | inl g ↦
      let (room, alive) : (ltb (length s.queue) s.capacity ≡ true) × (ltb 0 (live s) ≡ true) =
        and_both _ _ g in
      rw (g, step)
        (record {
          counted = v.counted;
          fits = rw (length-append s.queue (s.next ∷ [])) (ground arith);
          attended = λ z. absurd (ground arith);
          placed = λ j m.
              snoc-placed s.next j s.queue (elem j s.working || elem j s.settled) (v.placed j m);
        })
  | inr g ↦ rw (g, step) tt
]
step-IsSound take s v = take_front-IsSound s s.queue refl v
step-IsSound (finish i) s v = elim (Bool-cases (elem i s.working)) [
  | inl g ↦
      rw (g, step)
        (record {
          counted = v.counted;
          fits = v.fits;
          attended = λ z. absurd (omega arith);
          placed = λ j m. finish-placed i j s.queue s.working s.settled (v.placed j m);
        })
  | inr g ↦ rw (g, step) tt
]
step-IsSound (die i) s v = elim (Bool-cases (elem i s.working)) [
  | inl g ↦
      rw (g, step)
        (close-IsSound (record s { working = remove i s.working; settled = i ∷ s.settled })
          v.counted v.fits (λ j m. finish-placed i j s.queue s.working s.settled (v.placed j m)))
  | inr g ↦ rw (g, step) tt
]
step-IsSound idle_exit s v = elim (Bool-cases (ltb 0 s.idle)) [
  | inl g ↦ rw (g, step) (close-IsSound (record s { idle = s.idle - 1 }) v.counted v.fits v.placed)
  | inr g ↦ rw (g, step) tt
]
step-IsSound (reply i) s v = elim (Bool-cases (elem i s.awaiting && elem i s.settled)) [
  | inl g ↦
      let member : elem i s.awaiting ≡ true = (and_both _ _ g).0 in
      rw (g, step)
        (record {
          counted = omega (arith, v.counted, length-remove i s.awaiting member);
          fits = v.fits;
          attended = v.attended;
          placed = λ j m. v.placed j (elem-of_remove j i s.awaiting m);
        })
  | inr g ↦ rw (g, step) tt
]
step-IsSound (cancel i) s v = release-IsSound s i v
step-IsSound (forget n) s v = elim (Bool-cases (leb n s.permits)) [
  | inl g ↦
      rw (g, step)
        (record {
          counted = ground (arith, v.counted);
          fits = v.fits;
          attended = v.attended;
          placed = v.placed;
        })
  | inr g ↦ rw (g, step) tt
]
step-IsSound (add_permits n) s v = record {
  counted = omega (arith, v.counted);
  fits = v.fits;
  attended = v.attended;
  placed = v.placed;
}

-- In each state that can be reached, the permits that are left and those that handlers hold make up
-- the limit, the queue fits the channel, nothing is queued without a live worker, and the request of a handler that
-- awaits its reply is in the queue, with a worker, or settled.
pub Reach-IsSound : {workers : ℕ} {s : Service} → Reach workers s → IsSound s
unfolding start live
Reach-IsSound {workers} here = record {
  counted = omega arith;
  fits = omega arith;
  attended = λ z. refl;
  placed = λ i m. cc;
}
Reach-IsSound (later {s} e r h) = subst (OnSome IsSound) h (step-IsSound e s (Reach-IsSound r))
