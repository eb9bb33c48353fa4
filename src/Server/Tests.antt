-- ===== src/Server/Tests.antt =====
-- A run on the toy runtime.
use bge_m3_embedding_server.Prelude.{
  ℕ, ◌+◌, ◌-◌, ◌≤◌, ◌==◌, ◌*◌, ◌≡◌, refl, true, false, none, some, [], ltb, arith, length, codes,
  text_eq, if◌then◌else◌, insertion_sort, trim, trim_start, trim_end, is_whitespace,
}
use bge_m3_embedding_server.AppError.{ok}
use bge_m3_embedding_server.Embed.Toy.{toy}
use bge_m3_embedding_server.Prelude.Floats.{whole, whole_ops}
use bge_m3_embedding_server.TrtWarmup.{Host, probe_run_dense}
use bge_m3_embedding_server.CacheGc.{not_run}
use bge_m3_embedding_server.Pool.{replied}
use bge_m3_embedding_server.Pool.Spawn.{
  Surroundings, spawned_pool, spawn, clamp_workers, load_from, await_worker_signal, joined_of,
  make_worker_config,
}
use bge_m3_embedding_server.Probe.Cache.{Json}
use bge_m3_embedding_server.Probe.Runner.{ProbePool}
use bge_m3_embedding_server.Bootstrap.Readiness.{
  physics_floor, run_readiness_probe, resolve_cost_model, adopt, run_readiness_checks_and_open,
}
use bge_m3_embedding_server.Bootstrap.Budget.{
  compute_workspace_budget, total_workspace, worst_case_peak,
}
use bge_m3_embedding_server.BinPack.{chunk_cost, conservative}
use bge_m3_embedding_server.Scores.{median_usize}
use bge_m3_embedding_server.Worker.Startup.{
  startup_worker, prime_arena, signal_ready, detected_sm_for_ep,
}
use bge_m3_embedding_server.Bootstrap.Opening.{checks_pass}
use bge_m3_embedding_server.Config.{
  Environment, model_from, ep_from, propagation_from, max_seq_length_from, idle_timeout_from,
  resolve_cost_model_override, gpu_override, parse_trt_warmup_shapes, number, float, parse_uint,
  parse_digits, available_or_default,
}
use bge_m3_embedding_server.Config.Lookup.{Config, from_lookup}
use bge_m3_embedding_server.Server.{
  System, wait_for_workers_to_exit, run, pool_config, serve_run, warmup_only_run, readiness_config,
  found_by, initial_state,
}
use bge_m3_embedding_server.SysInfo.{
  macos, detect_available_memory, env_override, host_ram, macos_host_ram,
}
use bge_m3_embedding_server.Server.Shutdown.{is_last, wait_for_workers_to_exit-ends}
use bge_m3_embedding_server.Server.Exits.{pool_of, is_open, workspace_of, run-open}

abbrev host : Host toy
host = record {
  file_names = λ s. [];
  fsync_cache_dir = λ s. 2;
  read_process_rss_bytes = λ s. some 1000;
}

abbrev around : Surroundings toy host
around = record {
  load_models = λ id. ok (0, tt);
  pre_load_rss = λ id. none;
  nvidia_smi = λ device. not_run;
}

-- One variable is set.
abbrev env : Environment whole whole_ops
env = record {
  lookup =
      λ name. if text_eq name (codes "BGE_M3_DISABLE_AUTO_BUDGET") then some (codes "1") else none;
  parse_f64 = λ v. none;
  detect_gpu_count = λ n. 1;
}

abbrev defaults : Config ℕ
defaults = from_lookup whole whole_ops env

abbrev json : Json ℕ
json = record { to_string_pretty = λ c. none; from_str = λ t. none }

abbrev pool : ProbePool ℕ
pool = record {
  measure = λ texts s.
      (replied (ok (record { rss_before = 0; rss_after = length texts * 1000000 })), s + 1);
  read_process_rss_bytes = λ s. some 1000;
}

abbrev system : System ℕ
system = record {
  version = codes "1.0.0";
  arch = codes "x86_64";
  disable_probe_cache = false;
  machine = record {
    platform = macos;
    available_memory = none;
    proc_self_cgroup = none;
    memory_max = λ dir. none;
    limit_in_bytes = none;
    meminfo = none;
    sysctl = some (codes "16000000000");
    statm = none;
    nvidia_gpus = none;
  };
  cache_dir = record { final_file = none; tmp_file = none };
  save = record { written = false; partial = none; renamed = false; removed = false };
  now = 7;
  corpus_file = [];
  readiness = record { dense = ok true; sparse = ok true };
  pool_state = 0;
  engine_names = [];
  nvidia_smi = not_run;
}

-- The default of the safety factor is no whole number.
abbrev cfg : Config ℕ
cfg = record defaults { memory_safety_factor = 1 }

opens : is_open (run toy host whole_ops json pool around cfg system) ≡ true
unfolding run serve_run warmup_only_run pool_config readiness_config found_by initial_state
    from_lookup model_from ep_from propagation_from max_seq_length_from idle_timeout_from
    resolve_cost_model_override gpu_override parse_trt_warmup_shapes number float
    available_or_default spawned_pool spawn clamp_workers load_from await_worker_signal joined_of
    make_worker_config startup_worker prime_arena signal_ready probe_run_dense run_readiness_probe
    resolve_cost_model adopt run_readiness_checks_and_open physics_floor chunk_cost conservative
    compute_workspace_budget total_workspace worst_case_peak median_usize detected_sm_for_ep
    insertion_sort detect_available_memory env_override host_ram macos_host_ram trim trim_start
    trim_end is_whitespace parse_uint parse_digits
opens = refl

-- One worker exits between two polls.
abbrev live_workers : ℕ → ℕ
live_workers k = 3 - k

abbrev clock : ℕ → ℕ
clock k = 7 + 105 * k

run-open_example :
    (cfg.warmup_only ≡ false)
    × ((pool_of toy host whole_ops json pool around cfg).loaded_workers
        ≡ (pool_of toy host whole_ops json pool around cfg).spawned_workers)
    × (ltb
          (workspace_of toy host whole_ops json pool cfg system
            (pool_of toy host whole_ops json pool around cfg))
          (physics_floor whole whole_ops json pool cfg.max_seq_length)
        ≡ false)
    × (checks_pass system.readiness ≡ true)
unfolding from_lookup found_by number
run-open_example =
    run-open toy host whole_ops json pool around cfg system (omega arith) (omega arith)
      (
        tt,
        record { lo_irrefl = refl; hi_irrefl = refl; in_order = refl },
        record { lo_irrefl = refl; hi_irrefl = refl; in_order = refl },
      )
      opens

drains : wait_for_workers_to_exit 101 live_workers clock 10007 0 ≡ some true
unfolding wait_for_workers_to_exit
drains = refl

wait_for_workers_to_exit-ends_example :
    (j : ℕ) × (j ≤ 100)
    × (wait_for_workers_to_exit 101 live_workers clock 10007 0 ≡ some (live_workers j == 0))
    × (is_last live_workers clock 10007 j ≡ true)
wait_for_workers_to_exit-ends_example =
    wait_for_workers_to_exit-ends live_workers clock 10007 (λ k. omega arith) 100 (omega arith)
