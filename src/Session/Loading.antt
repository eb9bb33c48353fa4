-- ===== src/Session/Loading.antt =====
-- src/embedder/session.rs: a session that has been loaded runs on the GPU that was asked for.
use bge_m3_embedding_server.Prelude.{
  ℕ, ◌<◌, ◌^◌, lt→ltb, ◌≡◌, refl, subst, Bool, true, false, List, [], ◌∷◌, All, Text,
}
use bge_m3_embedding_server.Prelude.Integers.{pos}
use bge_m3_embedding_server.AppError.{Result, ok, err, panic, ◌>>=◌, map_err, Error, ort_err}
use bge_m3_embedding_server.Worker.Dispatch.{EpSelection, cpu, cuda, tensor_rt}
use bge_m3_embedding_server.ModelFiles.{Hub, download_model_files}
use bge_m3_embedding_server.Session.{
  Build, Setup, tensor_rt_ep, cuda_ep, Provider, GpuSessionConfig, tensor_rt_provider, cast_signed,
  cuda_provider, linux_providers, execution_providers, Libraries, load_session, load_tokenizer,
  load_models,
}

-- What a chain of two steps that succeeds went through.
both_ok :
    {A B : Type 0} {b : B} (k : A → Result B) (first : Result A)
    → first >>= k ≡ ok b
    → (a : A) × (k a ≡ ok b) × (first ≡ ok a)
both_ok k panic h = cc h
both_ok k (err e) h = cc h
both_ok k (ok a) h = (a, h, refl)

map_err-eq-ok :
    {A : Type 0} (g : Error → Error) (m : Result A) {a : A} → map_err g m ≡ ok a → m ≡ ok a
map_err-eq-ok g (ok a) h = h
map_err-eq-ok g (err e) h = cc h
map_err-eq-ok g panic h = cc h

-- The build has the provider of the selected GPU.
abbrev pub has_feature : Build → EpSelection → Bool
has_feature build tensor_rt = build.tensorrt_feature
has_feature build cuda = build.cuda_feature
has_feature build cpu = false

-- The provider of a selection, for a device.
abbrev pub IsFor : EpSelection → ℕ → Setup → Type 0
IsFor tensor_rt device (tensor_rt_ep d e t f w) = d ≡ pos device
IsFor cuda device (cuda_ep d m) = d ≡ pos device
IsFor ep device setup = ⊥

cast_signed-pos : (d : ℕ) → d < 2 ^ 31 → cast_signed d ≡ pos d
unfolding cast_signed
cast_signed-pos d h = rw (cast_signed, lt→ltb d (2 ^ 31) h) refl

-- The one provider for the GPU, whose failure is an error.
abbrev IsOnly : EpSelection → ℕ → List Provider → Type 0
IsOnly ep device eps =
    (p : Provider) × (eps ≡ p ∷ []) × (IsFor ep device p.setup) × (p.error_on_failure ≡ true)

linux_providers-IsOnly :
    (build : Build) (cfg : GpuSessionConfig) (ep : EpSelection)
    → has_feature build ep ≡ true
    → cfg.device_id < 2 ^ 31
    → IsOnly ep cfg.device_id (linux_providers build cfg ep)
unfolding linux_providers tensor_rt_provider cuda_provider
linux_providers-IsOnly build cfg tensor_rt h small =
    (tensor_rt_provider cfg, rw h refl, cast_signed-pos cfg.device_id small, refl)
linux_providers-IsOnly build cfg cuda h small =
    (cuda_provider cfg, rw h refl, cast_signed-pos cfg.device_id small, refl)
linux_providers-IsOnly build cfg cpu h small = cc h

module _ {Builder Session Tokenizer : Type 0} (libs : Libraries Builder Session Tokenizer) where
  -- What ONNX Runtime documents of `error_on_failure`: the builder goes on only if each provider with it was registered.
  pub record Registers (registered : Provider → Bool) : Type 0 where
    pub strict :
        (eps : List Provider) (b b' : Builder)
        → libs.with_execution_providers eps b ≡ ok b'
        → All (λ p. p.error_on_failure ≡ true → registered p ≡ true) eps

  -- A session that is built with a provider that is strict has it registered.
  load_session-registered :
      (registered : Provider → Bool)
      → Registers registered
      → (path : Text) (p : Provider) (threads : ℕ) (s : Session) → p.error_on_failure ≡ true
      → load_session libs path (p ∷ []) threads ≡ ok s
      → registered p ≡ true
  unfolding load_session
  load_session-registered registered r path p threads s strict h =
      let (fresh, h1, made) = both_ok _ (map_err ort_err libs.builder) h in
      let (set, h2, applied) =
        both_ok _ (map_err ort_err (libs.with_execution_providers (p ∷ []) fresh)) h1 in
      (r.strict (p ∷ []) fresh set
          (map_err-eq-ok ort_err (libs.with_execution_providers (p ∷ []) fresh) applied)).0
        strict

  -- On Linux, in a build with the feature of the selected GPU, for a device below 2^31, the providers are the one of that GPU, for the device of
  -- the configuration, and if the models are loaded, then ONNX Runtime has registered it: no worker serves on the CPU instead. It is assumed that
  -- ONNX Runtime fails where it cannot register a provider that is set up to do so.
  pub load_models-registered :
      (registered : Provider → Bool)
      → Registers registered
      → (hub : Hub) (build : Build) (cfg : GpuSessionConfig) (s : Session) (t : Tokenizer)
      → cfg.device_id < 2 ^ 31
      → build.macos ≡ false
      → has_feature build cfg.ep ≡ true
      → load_models libs hub build cfg ≡ ok (s, t)
      → (p : Provider) × (execution_providers build cfg ≡ p ∷ [])
        × (IsFor cfg.ep cfg.device_id p.setup)
        × (registered p ≡ true)
  unfolding load_models execution_providers
  load_models-registered registered r hub build cfg s t small system feature h =
      let (p, only, fits, strict) = linux_providers-IsOnly build cfg cfg.ep feature small in
      let eps : execution_providers build cfg ≡ p ∷ [] = simp (system, execution_providers) only in
      let (files, h1, got) =
        both_ok _ (download_model_files hub cfg.cache_dir cfg.model_variant []).0 h in
      let (tokenizer, h2, read) =
        both_ok _ (load_tokenizer libs files.tokenizer_path cfg.max_seq_length) h1 in
      let (session, h3, loaded) =
        both_ok _
          (load_session libs files.onnx_path (execution_providers build cfg) cfg.intra_threads)
          h2 in
      (
        p,
        eps,
        fits,
        load_session-registered registered r files.onnx_path p cfg.intra_threads session strict (
            subst (λ l. load_session libs files.onnx_path l cfg.intra_threads ≡ ok session) eps
              loaded),
      )
