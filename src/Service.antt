-- ===== src/Service.antt =====
-- src/handler, src/embedder/pool.rs and src/embedder/worker/run.rs together: the requests of many
-- clients on their way through the permits, the channel and the workers, as single steps in any
-- order. A request is a number; what is computed for it stands with the handlers and the workers.
pub mod Invariant
pub mod Work
pub mod Progress
mod Tests
use bge_m3_embedding_server.Prelude.{
  ℕ, suc, ◌+◌, ◌-◌, ◌*◌, ◌≡◌, Bool, true, false, ◌&&◌, not, Option, none, some, List, [], ◌∷◌, ◌++◌,
  ltb, leb, ◌==◌, if◌then◌else◌, length, is_empty, elem, remove,
}
use bge_m3_embedding_server.Bootstrap.Readiness.{initial_permits}

pub record Service : Type 0 where
  -- The permits of the semaphore that are left, and all that it has given out or keeps.
  pub permits : ℕ
  pub limit : ℕ
  pub capacity : ℕ
  -- The handlers that hold a permit: those that have yet to send, and those that await a reply.
  pub sending : List ℕ
  pub awaiting : List ℕ
  pub queue : List ℕ
  -- The live workers that wait for a request, and the requests that the others work on.
  pub idle : ℕ
  pub working : List ℕ
  -- The requests whose reply sender was used or dropped.
  pub settled : List ℕ
  -- The number of the next request.
  pub next : ℕ

unfoldable pub live : Service → ℕ
live s = s.idle + length s.working

-- What happens next. `post` is a request without a permit: an adaptive warmup or a probe.
pub data Event : Type 0 where
  acquire : Event
  send : ℕ → Event
  send_closed : ℕ → Event
  post : Event
  take : Event
  finish : ℕ → Event
  die : ℕ → Event
  idle_exit : Event
  reply : ℕ → Event
  cancel : ℕ → Event
  forget : ℕ → Event
  add_permits : ℕ → Event

-- When the last worker is gone, so is the receiver of the channel, and with it what is queued.
unfoldable pub close : Service → Service
unfolding live
close s = if live s == 0 then record s { queue = []; settled = s.queue ++ s.settled } else s

-- The front of the queue goes to a worker.
unfoldable pub take_front : Service → List ℕ → Option Service
take_front s [] = none
take_front s (i ∷ rest) =
    if ltb 0 s.idle
    then some (record s { queue = rest; idle = s.idle - 1; working = i ∷ s.working })
    else none

-- The handler is dropped, with its permit.
unfoldable pub release : ℕ → Service → Option Service
release i s =
    if elem i s.awaiting
    then some (record s { awaiting = remove i s.awaiting; permits = s.permits + 1 })
    else if elem i s.sending
    then some (record s { sending = remove i s.sending; permits = s.permits + 1 })
    else none

-- A step, if it is possible.
unfoldable pub step : Event → Service → Option Service
unfolding live close take_front release
step acquire s =
    if ltb 0 s.permits
    then some
        (record s { permits = s.permits - 1; sending = s.next ∷ s.sending; next = s.next + 1 })
    else none
step (send i) s =
    if elem i s.sending && (ltb (length s.queue) s.capacity && ltb 0 (live s))
    then some (record s {
      sending = remove i s.sending;
      awaiting = i ∷ s.awaiting;
      queue = s.queue ++ i ∷ [];
    })
    else none
step (send_closed i) s =
    if elem i s.sending && live s == 0
    then some (record s { sending = remove i s.sending; permits = s.permits + 1 })
    else none
step post s =
    if ltb (length s.queue) s.capacity && ltb 0 (live s)
    then some (record s { queue = s.queue ++ s.next ∷ []; next = s.next + 1 })
    else none
step take s = take_front s s.queue
step (finish i) s =
    if elem i s.working
    then some
        (record s { working = remove i s.working; idle = s.idle + 1; settled = i ∷ s.settled })
    else none
step (die i) s =
    if elem i s.working
    then some (close (record s { working = remove i s.working; settled = i ∷ s.settled }))
    else none
step idle_exit s = if ltb 0 s.idle then some (close (record s { idle = s.idle - 1 })) else none
step (reply i) s =
    if elem i s.awaiting && elem i s.settled
    then some (record s { awaiting = remove i s.awaiting; permits = s.permits + 1 })
    else none
step (cancel i) s = release i s
step (forget n) s =
    if leb n s.permits
    then some (record s { permits = s.permits - n; limit = s.limit - n })
    else none
step (add_permits n) s = some (record s { permits = s.permits + n; limit = s.limit + n })

-- The state that `run` and `spawn` set up for so many workers.
unfoldable pub start : ℕ → Service
unfolding initial_permits
start workers = record {
  permits = initial_permits workers;
  limit = initial_permits workers;
  capacity = workers * 4;
  sending = [];
  awaiting = [];
  queue = [];
  idle = workers;
  working = [];
  settled = [];
  next = 0;
}

pub data Reach (workers : ℕ) : Service → Type 0 where
  here : Reach workers (start workers)
  later : {s t : Service} (e : Event) → Reach workers s → step e s ≡ some t → Reach workers t
