-- ===== src/Lib.antt =====
-- The embedding server for BGE-M3. An HTTP handler checks a request and sends its texts to a pool of
-- worker threads. A worker tokenizes them, packs them into chunks that fit a workspace budget, asks
-- a guard whether TensorRT has engines for the chunks, runs an ONNX Runtime session on each chunk,
-- and replies with dense vectors, sparse weights or both. Between requests a worker warms shapes
-- that others have met, and unloads its models when it idles or fails too often.
--
-- The files, and the code that they model (paths from the repository's root):
--   BinPack      src/binpack.rs: the packer of chunks, `bin_pack`, and the cost model.
--   AppError     src/error.rs, src/embedder/error.rs: errors, as chains of causes, and responses.
--   JitGuard     src/embedder/jit_guard.rs: the guard, `admit` and `guard_chunks`.
--   Tokenize     src/embedder/tokenize.rs: the padded tensors of a chunk, `build_chunk_arrays`.
--   ModelFiles   src/embedder/model_files.rs: the files of a model variant, from the cache or the hub.
--   Session      src/embedder/session.rs: execution providers, and loading of the session and tokenizer.
--   Scores       src/embedder/math.rs: normalization, sparse weights, and lengths.
--   Embed        src/embedder/dense.rs, sparse.rs, dual.rs: `embed_dense`, `embed_sparse`,
--                `embed_both`. What the three share, tokenize, pack, guard and run the chunks in
--                order, is `embed_texts`; what each does with the outputs is a `place_` function.
--   TrtWarmup    src/embedder/trt_warmup.rs, trt_warmup/runner.rs, trt_cache/enumerate.rs:
--                `trt_prewarm` and the shapes that check a cached profile.
--   TrtCache     src/embedder/trt_cache: inspect.rs (the write probe and the counts at startup), fsync.rs,
--                prewarm_log.rs and the basenames of enumerate.rs.
--   Worker       src/embedder/worker: `Breaker` (the circuit breaker), `Retry` (which errors are
--                retried or fatal), `Propagation`, `Dispatch` (one request) and `Run` (one
--                iteration of the request loop).
--                `Startup` is startup.rs, prewarm_strict.rs and trt_warmup/postcondition.rs.
--   AdaptiveWarmup  src/embedder/adaptive_warmup.rs: the background task; a pass of its loop is
--                `warmup_pass`, a function of what the pass sees.
--   CacheGc      src/embedder/trt_cache_gc.rs, sm_detect.rs: `gc_stale_sm_plans`, on the entries of
--                the cache directory, and the tag of a GPU.
--   Pool         src/embedder/pool.rs: what a caller of the pool gets, and `spawn`; `Devices` joins it
--                with the loading of the models.
--   Probe        src/probe: `Corpus` (the texts), `Fit` (least squares), `Cache` (the file of the
--                coefficients) and `Runner` (the sweep).
--   Bootstrap    src/bootstrap/budget.rs, readiness.rs, probe_task.rs: the memory budget, the cost
--                model, the permits and the opening of the server, `run_readiness_probe`.
--   Config       src/config.rs: the configuration from the environment variables.
--   Server       src/lib.rs: `run`, which spawns the pool and either waits for it and exits, if it
--                only warms up, or runs the readiness probe and serves; `Shutdown` is
--                `wait_for_workers_to_exit`.
--   Service      what many clients, the handlers, the pool and the workers do together: the permits, the
--                channel and the replies, one step after the other in any order. `Invariant` is what
--                holds in each state, `Work` and `Progress` are that requests come
--                to an end.
--   SysInfo      src/sysinfo.rs: `detect_available_memory`, the walk of the cgroups, and the count of
--                GPUs, from what the files of the system say.
--   Handler      src/handler/common.rs, dense.rs, sparse.rs, both.rs, health.rs, and the probe status
--                and tuning information of src/state.rs; `Headers` is the collection of the
--                headers, `Router` is src/bootstrap/router.rs and the model list.
--   Logging      src/logging.rs: the keys at the start of a JSON line.
--   Runtime      what third parties give: floats, the standard library's sort, tokenizer, tensors and
--                sessions. `Embed.RowWise` states what is assumed of the model in a session.
--   Prelude      lists, texts, floats, orders and integers.
--
-- State is passed explicitly: a function that uses a session returns the session, also on an error.
-- A `Result` is a value, an error, or a panic of the code; a panic ends the task or thread, as it does
-- where it unwinds, while the release profile aborts the process. Whether a run of a warmup panics is a
-- function of its own, `prewarm_panics`, which the callers ask first. A loop is recursion over its list. Three
-- take fuel: the printing of a number takes the number itself, which has no more digits than that;
-- the wait for a quiet window takes its length, as each second ends it or adds to it; and the wait
-- for the workers to exit takes a poll more than its timeout has tenths of a second. A 64-bit
-- counter keeps its wrap-around, and a saturating sum its bound. A hash map is an association list,
-- a hash set is a list, and a text is the list of its characters. The counters of workers are shared
-- atomics, of which an iteration of one worker is taken as a whole; the channels of the workers are
-- queues. What an operating system shows (files of the cache, memory, clocks) is a parameter.
--
-- Not modelled: running out of memory, the listener, TLS and the heartbeats of src/lib.rs, the
-- statistics of the GPUs, log lines, and the layers of the router. The collection of the cache stands
-- alone: a default build does not run it at startup. `run_probe` leaves out `validate_max_seq_shape`,
-- which makes two arrays of one row and the configured length, at most 8192, and drops them.
-- `wait_for_workers_to_exit` returns nothing in the code; here it tells which of its two returns was
-- taken. The headers of a request are a list in the order of the iterator of `HeaderMap`. The error of a
-- workspace below the floor has fewer figures in its text than in the code.
pub mod Prelude
pub mod BinPack
pub mod CacheGc
pub mod AdaptiveWarmup
pub mod AppError
pub mod JitGuard
pub mod Probe
pub mod Runtime
pub mod Tokenize
pub mod Scores
pub mod Embed
pub mod TrtWarmup
pub mod Worker
pub mod Pool
pub mod Handler
pub mod Bootstrap
pub mod Config
pub mod Server
pub mod SysInfo
pub mod Service
pub mod ModelFiles
pub mod Session
pub mod TrtCache
pub mod Logging
