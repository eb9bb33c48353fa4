-- ===== src/Bootstrap/Budget.antt =====
-- src/bootstrap/budget.rs: the workspace that a worker may use.
use bge_m3_embedding_server.Prelude.{
  ℕ, ◌+◌, ◌-◌, ◌*◌, ◌^◌, ◌≤◌, ◌<◌, min, arith, if◌then◌else◌, ltb,
}
use bge_m3_embedding_server.Prelude.Floats.{F64}

-- `OS_HEADROOM_BYTES`
abbrev pub os_headroom_bytes : ℕ
os_headroom_bytes = 256 * 1024 * 1024

abbrev pub saturating_usize : ℕ → ℕ
saturating_usize n = min n (2 ^ 64 - 1)

-- The memory that the models and the system leave.
unfoldable pub total_workspace : ℕ → ℕ → ℕ → ℕ
total_workspace available_bytes n_workers model_rss_per_worker =
    (available_bytes - saturating_usize (n_workers * model_rss_per_worker)) - os_headroom_bytes

unfoldable pub worst_case_peak : ℕ → ℕ → ℕ → ℕ
worst_case_peak n_workers per_worker_workspace model_rss_per_worker = saturating_usize (
    saturating_usize (
      saturating_usize (n_workers * per_worker_workspace)
      + saturating_usize (n_workers * model_rss_per_worker))
    + os_headroom_bytes)

sums_fit :
    (available models share : ℕ)
    → available < 2 ^ 64
    → models + os_headroom_bytes ≤ available
    → share ≤ (available - saturating_usize models) - os_headroom_bytes
    → saturating_usize
        (saturating_usize (saturating_usize share + saturating_usize models) + os_headroom_bytes)
      ≤ available
sums_fit available models share b h k = omega arith

module _ (f : F64) where
  open f use {Carrier, of_ℕ, mul, div, to_usize}

  -- What a worker may use, and the peak and the utilization that follow.
  unfoldable pub compute_workspace_budget : ℕ → ℕ → ℕ → Carrier → ℕ × ℕ × Carrier
  unfolding total_workspace worst_case_peak
  compute_workspace_budget available_bytes n_workers model_rss_per_worker safety_factor =
      let total = total_workspace available_bytes n_workers model_rss_per_worker in
      let per_worker_workspace = to_usize (div (mul (of_ℕ total) safety_factor) (of_ℕ n_workers)) in
      let peak = worst_case_peak n_workers per_worker_workspace model_rss_per_worker in
      let utilization_pct =
        if ltb 0 available_bytes
        then mul (div (of_ℕ peak) (of_ℕ available_bytes)) (of_ℕ 100)
        else of_ℕ 0 in
      (per_worker_workspace, peak, utilization_pct)

  -- The share that the floats give to a worker: together, the workers have no more than the whole.
  abbrev pub IsShare : ℕ → ℕ → Carrier → Type 0
  IsShare total n_workers safety_factor =
      n_workers * to_usize (div (mul (of_ℕ total) safety_factor) (of_ℕ n_workers)) ≤ total

  -- If the models and the headroom fit the available memory, which fits 64 bits, and the floats give
  -- the workers no more than what is left, then the worst case of all workers at once fits the
  -- available memory.
  pub compute_workspace_budget-fits :
      (available_bytes n_workers model_rss_per_worker : ℕ) (safety_factor : Carrier)
      → available_bytes < 2 ^ 64
      → n_workers * model_rss_per_worker + os_headroom_bytes ≤ available_bytes
      → IsShare
          (total_workspace available_bytes n_workers model_rss_per_worker)
          n_workers
          safety_factor
      → (compute_workspace_budget available_bytes n_workers model_rss_per_worker safety_factor).1
        ≤ available_bytes
  unfolding compute_workspace_budget total_workspace worst_case_peak
  compute_workspace_budget-fits available_bytes n_workers model_rss_per_worker safety_factor b h
        share =
      sums_fit available_bytes (n_workers * model_rss_per_worker) _ b h share
