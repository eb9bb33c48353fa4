-- ===== src/Bootstrap/Tests.antt =====
-- Startups in whole numbers.
use bge_m3_embedding_server.Prelude.{
  ℕ, ◌+◌, ◌*◌, ◌≡◌, refl, Bool, true, false, not, ◌&&◌, none, some, [], ltb, if◌then◌else◌, arith,
  length, codes,
}
use bge_m3_embedding_server.AppError.{ok}
use bge_m3_embedding_server.Handler.{probe_running, disabled}
use bge_m3_embedding_server.Pool.{replied}
use bge_m3_embedding_server.Prelude.Floats.{whole, whole_ops}
use bge_m3_embedding_server.Probe.Cache.{Json}
use bge_m3_embedding_server.Probe.Runner.{ProbePool}
use bge_m3_embedding_server.Worker.Dispatch.{cuda}
use bge_m3_embedding_server.Worker.Readiness.{is_ok}
use bge_m3_embedding_server.Pool.Spawn.{PoolConfig, clamp_workers}
use bge_m3_embedding_server.Handler.Health.{HealthState, health, status_of, health-clamp_workers}
use bge_m3_embedding_server.Bootstrap.Budget.{compute_workspace_budget}
use bge_m3_embedding_server.Bootstrap.Readiness.{
  ServerState, initial_permits, Found, ReadinessConfig, run_readiness_probe, physics_floor,
}
use bge_m3_embedding_server.Bootstrap.Opening.{
  checks_pass, permits_after, is_probed, run_readiness_probe-opens,
}

abbrev pool : ProbePool ℕ
pool = record {
  measure = λ texts s.
      (replied (ok (record { rss_before = 0; rss_after = length texts * 1000000 })), s + 1);
  read_process_rss_bytes = λ s. some 1000;
}

abbrev json : Json ℕ
json = record { to_string_pretty = λ c. none; from_str = λ t. none }

-- A single worker, without an override or a cached fit.
abbrev config : ReadinessConfig whole
config = record {
  workers = 1;
  safety = 1;
  cost_model_override = none;
  fingerprint = record {
    server_version = codes "1.0.0";
    model = codes "fp16";
    max_seq = 512;
    arch = codes "x86_64";
  };
  disable_probe_cache = false;
}

abbrev found : Found whole ℕ
found = record {
  init = ok tt;
  available_bytes = 4000000000;
  model_rss_per_worker = 1000000000;
  cache_dir = record { final_file = none; tmp_file = none };
  save = record { written = false; partial = none; renamed = false; removed = false };
  now = 7;
  corpus_file = [];
  readiness = record { dense = ok true; sparse = ok true };
  pool_state = 0;
}

abbrev closed : ServerState whole
closed = record {
  ready = false;
  probe_status = probe_running;
  cost_model = record { a = 16384; b = 8; max_workspace_bytes = 1 };
  request_permits = 1;
}

abbrev workspace : ℕ
workspace = (compute_workspace_budget whole 4000000000 1 1000000000 1).0

abbrev allowed : Bool
allowed = is_ok found.init && not (ltb workspace (physics_floor whole whole_ops json pool 512))

run_readiness_probe-opens_example :
    ((run_readiness_probe whole whole_ops json pool config found closed).1.0.ready
      ≡ (allowed && checks_pass found.readiness))
    × ((run_readiness_probe whole whole_ops json pool config found closed).1.0.request_permits ≡ (
        if allowed
        then permits_after whole whole_ops json pool config
            (is_probed whole whole_ops json pool config found)
        else initial_permits config.workers))
unfolding initial_permits
run_readiness_probe-opens_example =
    run_readiness_probe-opens whole whole_ops json pool config found closed refl refl (omega arith)
      (omega arith)
      (
        tt,
        record { lo_irrefl = refl; hi_irrefl = refl; in_order = refl },
        record { lo_irrefl = refl; hi_irrefl = refl; in_order = refl },
      )

-- Two GPUs, and four configured workers.
abbrev gpu_config : PoolConfig
gpu_config = record {
  startup = record {
    ep = cuda;
    device_id = 0;
    trt_warmup_shapes = [];
    prewarm_strict = true;
    trt_cache_gc_enabled = false;
  };
  gpu_count = 2;
}

abbrev state : HealthState ℕ
state = record {
  ready = true;
  live = 2;
  loaded = 2;
  total_workers = 4;
  max_seq_length = 512;
  cost_model = closed.cost_model;
  probe_status = disabled;
  tuning = none;
}

health-clamp_workers_example : status_of (health state).body ≡ codes "warn"
unfolding clamp_workers
health-clamp_workers_example =
    health-clamp_workers state gpu_config refl (omega arith) refl refl refl
