-- ===== src/Service/Tests.antt =====
-- One request on its way through a server with two workers.
use bge_m3_embedding_server.Prelude.{◌+◌, ◌≤◌, ◌≡◌, refl, ◌⊎◌, false, some, [], ◌∷◌, arith}
use bge_m3_embedding_server.Bootstrap.Readiness.{initial_permits}
use bge_m3_embedding_server.Service.{
  Service, acquire, send, take, finish, die, idle_exit, reply, live, close, take_front, step, start,
  Reach, here, later,
}
use bge_m3_embedding_server.Service.Invariant.{IsSound, Reach-IsSound}
use bge_m3_embedding_server.Service.Work.{run_events, work}
use bge_m3_embedding_server.Service.Progress.{is_waiting, CanGoOn, run_events-ends}

-- The request has been sent, and a worker has it.
abbrev served : Service
served = record (start 2) { permits = 0; awaiting = 0 ∷ []; idle = 1; working = 0 ∷ []; next = 1 }

served-Reach : Reach 2 served
unfolding step start initial_permits live close take_front
served-Reach =
    later take
      (later (send 0)
        (later {t = record (start 2) { permits = 0; sending = 0 ∷ []; next = 1 }} acquire here refl)
        refl)
      refl

Reach-IsSound_example : IsSound served
Reach-IsSound_example = Reach-IsSound served-Reach

abbrev answered : Service
answered = record (start 2) { settled = 0 ∷ []; next = 1 }

run_events-ends_example :
    (2 + work answered ≤ work served) × ((is_waiting answered ≡ false) ⊎ CanGoOn answered)
unfolding step start initial_permits live close take_front
run_events-ends_example =
    run_events-ends (finish 0 ∷ reply 0 ∷ []) served-Reach (omega arith) (refl, (refl, tt)) refl

-- Both workers die, the second one with the request, and the handler gets an error.
orphaned :
    run_events (idle_exit ∷ die 0 ∷ reply 0 ∷ []) served ≡ some (record answered { idle = 0 })
unfolding step start initial_permits live close take_front
orphaned = refl
