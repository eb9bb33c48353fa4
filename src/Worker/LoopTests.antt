-- ===== src/Worker/LoopTests.antt =====
-- The request loop on the toy runtime.
use bge_m3_embedding_server.Prelude.{
  ℕ, ◌≡◌, refl, ◌⊎◌, true, false, none, some, List, [], ◌∷◌, Text, arith,
}
use bge_m3_embedding_server.AppError.{ok}
use bge_m3_embedding_server.BinPack.{CostModel}
use bge_m3_embedding_server.Embed.Toy.{toy}
use bge_m3_embedding_server.Embed.Types.{fp32}
use bge_m3_embedding_server.TrtWarmup.{Host}
use bge_m3_embedding_server.Worker.Propagation.{Channels, shape_ready}
use bge_m3_embedding_server.Worker.Dispatch.{WorkerConfig, Reply, dense, tensor_rt}
use bge_m3_embedding_server.Worker.Run.{Worker, request, panicked, iterate, serve}
use bge_m3_embedding_server.Worker.Counters.{Accounts, iterate-Accounts}
use bge_m3_embedding_server.Worker.Clients.{serve-answers}

abbrev host : Host toy
host = record { file_names = λ s. []; fsync_cache_dir = λ s. 2; read_process_rss_bytes = λ s. none }

abbrev config : WorkerConfig
config = record {
  id = 0;
  ep = tensor_rt;
  model_variant = fp32;
  circuit_breaker_threshold = 3;
  trt_inband_jit_guard_enabled = true;
  trt_inband_jit_guard_seq = 4;
  detected_sm = none;
}

abbrev cost : CostModel ℕ
cost = record { a = 1; b = 0; max_workspace_bytes = 6 }

abbrev channels : Channels
channels = record {
  jit_suspect_capacity = some 16;
  jit_suspects = [];
  engine_propagation = some ((2, 4) ∷ []);
}

-- A worker with its models, besides two other loaded ones.
abbrev worker : Worker toy
worker = record {
  models = some (0, tt);
  warmed_local = [];
  consecutive_failures = 1;
  warmed_seq_ceiling = 3;
  channels = channels;
  live_workers = 3;
  loaded_workers = 3;
}

abbrev texts : List Text
texts = (5 ∷ 6 ∷ 7 ∷ []) ∷ (9 ∷ []) ∷ []

iterate-Accounts_example :
    Accounts 2 3
      (iterate toy host config cost
        (shape_ready (2, 4) ∷ [])
        (ok (0, tt))
        (request (dense texts false))
        worker).0
iterate-Accounts_example =
    iterate-Accounts toy host 2 3 (omega arith) (omega arith) (omega arith) config cost
      (shape_ready (2, 4) ∷ []) (ok (0, tt)) (request (dense texts false)) worker (omega arith) refl
      tt

serve-answers_example :
    ((r : Reply ℕ) × ((serve toy host config cost (dense texts false) 0 tt worker).1 ≡ some r))
    ⊎ ((w' : Worker toy) × ((serve toy host config cost (dense texts false) 0 tt worker).0
          ≡ panicked w'))
serve-answers_example = serve-answers toy host config cost (dense texts false) 0 tt worker refl
