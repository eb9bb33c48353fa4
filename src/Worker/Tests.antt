-- ===== src/Worker/Tests.antt =====
-- The circuit breaker on short sequences of calls, and errors that end a worker.
use bge_m3_embedding_server.Prelude.{
  ◌+◌, ◌≡◌, refl, true, inl, none, List, [], ◌∷◌, arith, leb, codes, contains, to_lowercase,
  starts_with, strip_prefix,
}
use bge_m3_embedding_server.AppError.{Cause, context}
use bge_m3_embedding_server.Worker.Breaker.{Call, fails, is_refused, trips, failures, trips_iff}
use bge_m3_embedding_server.Worker.Retry.{is_trt_engine_build_fatal}
use bge_m3_embedding_server.Worker.Fatal.{is_trt_engine_build_fatal-chain}

abbrev streak : List Call
streak = fails ∷ is_refused ∷ fails ∷ is_refused ∷ []

trips_iff_example : trips 3 streak 1 ≡ leb 3 (1 + failures streak)
trips_iff_example = trips_iff 3 streak 1 (omega arith) (omega arith) (tt, (tt, (tt, (tt, tt))))

abbrev build_failure : Cause
build_failure = record { message = codes "TRT: Failed to build engine"; rejection = none }

is_trt_engine_build_fatal-chain_example :
    is_trt_engine_build_fatal
      (context (codes "Dense embed error") (record { outermost = build_failure; sources = [] }))
    ≡ true
unfolding context contains to_lowercase starts_with strip_prefix
is_trt_engine_build_fatal-chain_example =
    is_trt_engine_build_fatal-chain
      (context (codes "Dense embed error") (record { outermost = build_failure; sources = [] })) 1
      build_failure refl (inl refl)
