-- ===== src/Worker/Retry.antt =====
-- src/embedder/worker/trt_retry.rs: which errors of an embedding call are retried with half the
-- workspace, and which end the worker.
use bge_m3_embedding_server.Prelude.{
  ℕ, ◌/◌, ◌≤◌, ◌≡◌, max, Bool, true, ◌&&◌, ◌||◌, arith, leb→le, le→leb, if◌then◌else◌, codes,
  contains, to_lowercase,
}
use bge_m3_embedding_server.Prelude.Floats.{F64}
use bge_m3_embedding_server.AppError.{Error, Result, ok, err, panic, display, display_chain}
use bge_m3_embedding_server.BinPack.{CostModel, fits, chunk_cost}

unfoldable pub is_trt_jit_oom : Error → Bool
is_trt_jit_oom e =
    let lowercase = to_lowercase (display e) in
    contains (codes "user allocator error") lowercase
    || ((contains (codes "could not find any implementation") lowercase
          && (contains (codes "workspace") lowercase || contains (codes "alloc") lowercase))
        || (contains (codes "failed to create engine") lowercase
            && (contains (codes "workspace") lowercase
                || (contains (codes "alloc") lowercase
                    || (contains (codes "memory") lowercase
                        || (contains (codes "oom") lowercase
                            || contains (codes "tactic") lowercase))))))

unfoldable pub is_trt_engine_build_fatal : Error → Bool
is_trt_engine_build_fatal e =
    let lowercase = to_lowercase (display_chain e) in
    contains (codes "failed to build engine") lowercase
    || contains (codes "failed to create engine from network") lowercase

-- `1024 * 1024`
abbrev pub mib : ℕ
mib = 1048576

unfoldable pub halved : {F : Type 0} → CostModel F → CostModel F
halved base = record base { max_workspace_bytes = max (base.max_workspace_bytes / 2) mib }

-- `embed_fn` uses a session, which both calls pass on.
unfoldable pub embed_with_trt_retry :
    {F S A : Type 0} → (CostModel F → S → Result A × S) → CostModel F → S → Result A × S
embed_with_trt_retry embed_fn base_cm s =
    let (r, s') = embed_fn base_cm s in
    elim r [
      | ok v ↦ (ok v, s')
      | panic ↦ (panic, s')
      | err e ↦ if is_trt_jit_oom e then embed_fn (halved base_cm) s' else (err e, s')
    ]

-- If the budget is 1 MiB or more, a chunk that fits the budget of the retry fits the first one.
pub fits-halved :
    (f : F64) (cm : CostModel f.Carrier) (count max_seq : ℕ)
    → mib ≤ cm.max_workspace_bytes
    → fits f (halved cm) count max_seq ≡ true
    → fits f cm count max_seq ≡ true
unfolding fits halved chunk_cost
fits-halved f cm count max_seq h e = le→leb _ _ (omega (arith, leb→le _ _ e))
