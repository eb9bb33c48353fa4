-- ===== src/Config/Ranges.antt =====
-- src/config.rs: the ranges of the numbers of a configuration.
use bge_m3_embedding_server.Prelude.{
  ℕ, ◌^◌, ◌≤◌, ◌<◌, ◌≡◌, ◌≢◌, max, inl, inr, not, ◌&&◌, Option, none, some, [], ◌∷◌, ltb, ◌==◌,
  is_empty, Text, codes, arith, Bool-cases, Option-cases,
}
use mathlib.Core.Option.{some_inj}
use bge_m3_embedding_server.Prelude.Floats.{F64, FitOps, IsRange, IsWithin, clamp-IsWithin}
use bge_m3_embedding_server.Config.{
  Environment, number, unwrap_or, usize_bound, parse_digits, parse_uint, below, model_max_seq,
  max_seq_length_from, idle_timeout_from,
}
use bge_m3_embedding_server.Config.Lookup.{Config, from_lookup}

below_lem : (bound : ℕ) (n : Option ℕ) (v : ℕ) → below bound n ≡ some v → v < bound
below_lem bound none v h = cc h
below_lem bound (some n) v h = elim (Bool-cases (ltb n bound)) [
  | inl e ↦ let same : n ≡ v = some_inj.0 (rw e at h) in ground arith
  | inr e ↦ cc (rw e at h)
]

parse_uint-below : (bound : ℕ) (t : Text) (v : ℕ) → parse_uint bound t ≡ some v → v < bound
unfolding parse_uint
parse_uint-below bound [] v h = cc h
parse_uint-below bound (c ∷ t) v h = elim (Bool-cases ((c == b'+') && not (is_empty t))) [
  | inl e ↦ below_lem bound (parse_digits t 0) v (rw e at h)
  | inr e ↦ below_lem bound (parse_digits (c ∷ t) 0) v (rw e at h)
]

-- A positive `usize`.
abbrev pub IsCount : ℕ → Type 0
IsCount n = (0 < n) × (n < 2 ^ 64)

pub record IsInRange {f : F64} (ops : FitOps f) (cfg : Config f.Carrier) : Type 0 where
  pub workers : IsCount cfg.workers
  pub intra_threads : IsCount cfg.intra_threads
  pub max_batch : IsCount cfg.max_batch
  pub max_seq_length : (0 < cfg.max_seq_length) × (cfg.max_seq_length ≤ 8192)
  pub circuit_breaker_threshold : IsCount cfg.circuit_breaker_threshold
  pub trt_inband_jit_guard_seq : IsCount cfg.trt_inband_jit_guard_seq
  pub adaptive_warmup_max_shapes_per_hour : cfg.adaptive_warmup_max_shapes_per_hour < 2 ^ 32
  pub idle_timeout : cfg.idle_timeout ≢ some 0
  pub memory_safety_factor : IsWithin ops (ops.ratio 1 10) (f.of_ℕ 1) cfg.memory_safety_factor

max_one-IsCount : (n : ℕ) → n < 2 ^ 64 → IsCount (max n 1)
max_one-IsCount n h = (ground arith, ground arith)

max_seq_length_from-range :
    (raw : ℕ) → (0 < max_seq_length_from raw) × (max_seq_length_from raw ≤ 8192)
unfolding max_seq_length_from
max_seq_length_from-range raw = (ground arith, ground arith)

idle_timeout_from-positive : (secs : ℕ) → idle_timeout_from secs ≢ some 0
unfolding idle_timeout_from
idle_timeout_from-positive secs h = elim (Bool-cases (ltb 0 secs)) [
  | inl e ↦ let same : secs ≡ 0 = some_inj.0 (rw e at h) in cc (rw same at e)
  | inr e ↦ cc (rw e at h)
]

module _ (f : F64) (ops : FitOps f) (env : Environment f ops) where
  unwrap_or-below :
      (bound d : ℕ) (name : Text) → d < bound → unwrap_or (number f ops env bound name) d < bound
  unfolding number
  unwrap_or-below bound d name h = elim (Option-cases (number f ops env bound name)) [
    | inl e ↦ rw e h
    | inr (v, e) ↦ rw e (number_below v e)
  ]
    where
      number_below : (v : ℕ) → number f ops env bound name ≡ some v → v < bound
      number_below v e = elim (Option-cases (env.lookup name)) [
        | inl a ↦ cc (rw (a, number) at e)
        | inr (t, a) ↦ parse_uint-below bound t v (rw (a, number) at e)
      ]

  -- Whatever the environment holds, the numbers of the configuration are in their ranges, if the bounds of the safety factor are in order, and not
  -- below themselves: the counts are positive and fit 64 bits, the longest text has 1 to 8,192 tokens, the rate of the warmup
  -- fits 32 bits, no idle timeout is 0, and the safety factor is neither below a tenth nor above 1.
  pub from_lookup-IsInRange :
      IsRange ops (ops.ratio 1 10) (f.of_ℕ 1) → IsInRange ops (from_lookup f ops env)
  unfolding from_lookup
  from_lookup-IsInRange range = record {
    workers =
        max_one-IsCount _ (unwrap_or-below usize_bound 2 (codes "BGE_M3_WORKERS") (omega arith));
    intra_threads =
        max_one-IsCount _
          (unwrap_or-below usize_bound 1 (codes "BGE_M3_INTRA_THREADS") (omega arith));
    max_batch =
        max_one-IsCount _
          (unwrap_or-below usize_bound 256 (codes "BGE_M3_MAX_BATCH") (omega arith));
    max_seq_length =
        max_seq_length_from-range
          (unwrap_or (number f ops env usize_bound (codes "BGE_M3_MAX_SEQ_LENGTH")) model_max_seq);
    circuit_breaker_threshold =
        max_one-IsCount _
          (unwrap_or-below usize_bound 5 (codes "BGE_M3_CIRCUIT_BREAKER_THRESHOLD") (omega arith));
    trt_inband_jit_guard_seq =
        max_one-IsCount _ (
          unwrap_or-below usize_bound 4096 (codes "BGE_M3_TRT_INBAND_JIT_GUARD_SEQ") (omega arith));
    adaptive_warmup_max_shapes_per_hour =
        unwrap_or-below (2 ^ 32) 12 (codes "BGE_M3_ADAPTIVE_WARMUP_MAX_SHAPES_PER_HOUR")
          (omega arith);
    idle_timeout = idle_timeout_from-positive _;
    memory_safety_factor = clamp-IsWithin ops _ (ops.ratio 1 10) (f.of_ℕ 1) range;
  }
