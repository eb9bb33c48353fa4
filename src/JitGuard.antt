-- ===== src/JitGuard.antt =====
-- src/embedder/jit_guard.rs: the admission guard that refuses chunk shapes which the warmed
-- engines do not cover.
pub mod Coverage
mod Tests
use bge_m3_embedding_server.Prelude.{
  ℕ, max, Bool, true, false, ◌&&◌, Option, none, some, List, [], ◌∷◌, ◌++◌, map, ltb, leb,
  if◌then◌else◌, length, longest, Text, codes, decimal,
}
use bge_m3_embedding_server.AppError.{TrtJitRejection, Cause, Error}

pub record TrtJitGuard : Type 0 where
  pub guard_seq : ℕ
  pub warmed_seq_ceiling : ℕ

-- `Result<(), TrtJitRejection>`
pub data Admission : Type 0 where
  admitted : Admission
  rejected : TrtJitRejection → Admission

unfoldable pub admit : TrtJitGuard → ℕ → ℕ → Admission
admit g batch seq =
    if leb g.guard_seq seq && ltb g.warmed_seq_ceiling seq
    then rejected (record {
      batch = batch;
      seq = seq;
      guard_seq = g.guard_seq;
      warmed_seq_ceiling = g.warmed_seq_ceiling;
    })
    else admitted

-- The loop stops at the first refusal.
unfoldable pub guard_each : TrtJitGuard → List (List ℕ) → List ℕ → Admission
guard_each g [] seq_lens = admitted
guard_each g (chunk ∷ chunks) seq_lens = elim (admit g (length chunk) (longest seq_lens chunk)) [
  | rejected r ↦ rejected r
  | admitted ↦ guard_each g chunks seq_lens
]

unfoldable pub guard_chunks : Option TrtJitGuard → List (List ℕ) → List ℕ → Admission
guard_chunks none chunks seq_lens = admitted
guard_chunks (some g) chunks seq_lens = guard_each g chunks seq_lens

-- `Display for TrtJitRejection`
unfoldable pub display_rejection : TrtJitRejection → Text
display_rejection r =
    codes "refusing in-band TensorRT JIT for chunk (batch="
    ++ (decimal r.batch
        ++ (codes ", seq="
            ++ (decimal r.seq
                ++ (codes "): seq is at/above the guard threshold ("
                    ++ (decimal r.guard_seq
                        ++ (codes ") and exceeds the pool's warmed engine coverage (max warmed seq="
                            ++ (decimal r.warmed_seq_ceiling
                                ++ codes
                                    "). Issuing this run risks a pathological autotuner allocation that can crash the worker. The request is retriable once warmup coverage extends.")))))))

-- `anyhow::Error::new(rejection)`
unfoldable pub rejection_error : TrtJitRejection → Error
rejection_error r = record {
  outermost = record { message = display_rejection r; rejection = some r };
  sources = [];
}
