-- ===== src/AdaptiveWarmup/Tests.antt =====
-- A session of the task that compiles one shape, of which it hears twice.
use bge_m3_embedding_server.Prelude.{ℕ, ◌≡◌, refl, true, some, List, [], ◌∷◌, arith}
use bge_m3_embedding_server.AppError.{ok}
use bge_m3_embedding_server.Pool.{replied}
use bge_m3_embedding_server.TrtWarmup.{Shape}
use bge_m3_embedding_server.AdaptiveWarmup.{
  AdaptiveWarmupConfig, Seen, Pass, Second, elapsed, warmup_pass, fresh_warmup,
  wait_for_quiet_window, spawn_adaptive_warmup, run_adaptive_warmup_loop,
}
use bge_m3_embedding_server.AdaptiveWarmup.Quiet.{all_idle, wait_for_quiet_window-ends}
use bge_m3_embedding_server.AdaptiveWarmup.Queue.{Distinct}
use bge_m3_embedding_server.AdaptiveWarmup.Session.{
  IsGood, warmup_pass-IsGood, spawn_adaptive_warmup-Distinct,
}

abbrev config : AdaptiveWarmupConfig
config = record { enabled = true; quiet_secs = 2; max_shapes_per_hour = 12 }

abbrev idle : ℕ → Second
idle k = record { suspects = []; queue_depth = 0 }

abbrev seen : List Shape → Seen
seen suspects = record {
  suspects = suspects;
  now = 10;
  restart = 11;
  wakeup = elapsed;
  queue_depth = 0;
  seconds = idle;
  delivery = replied (ok 7000);
}

abbrev passes : List Seen
passes = seen ((4, 512) ∷ (4, 512) ∷ []) ∷ seen ((4, 512) ∷ []) ∷ []

compiles_once : spawn_adaptive_warmup config 0 passes ≡ (4, 512) ∷ []
unfolding spawn_adaptive_warmup run_adaptive_warmup_loop
compiles_once = refl

wait_for_quiet_window-ends_example :
    (pending : List Shape) × (wait_for_quiet_window 2 idle [] []
      ≡ some (all_idle 2 0 idle, pending))
wait_for_quiet_window-ends_example = wait_for_quiet_window-ends 2 idle [] []

warmup_pass-IsGood_example :
    (p : Pass) × (warmup_pass config (seen ((4, 512) ∷ [])) (fresh_warmup 0) ≡ some p)
    × IsGood config [] p
unfolding fresh_warmup
warmup_pass-IsGood_example =
    warmup_pass-IsGood config (seen ((4, 512) ∷ [])) (fresh_warmup 0) (omega arith)
      ((tt, tt), tt, omega arith)

spawn_adaptive_warmup-Distinct_example : Distinct (spawn_adaptive_warmup config 0 passes)
spawn_adaptive_warmup-Distinct_example =
    spawn_adaptive_warmup-Distinct config 0 passes (omega arith)
