-- ===== src/Session/Tests.antt =====
-- Loading on a GPU whose provider can be registered, and in a build without it.
use bge_m3_embedding_server.Prelude.{
  some, Text, ◌++◌, ◌≡◌, refl, true, false, none, [], ◌∷◌, codes, ◌⊎◌,
}
use bge_m3_embedding_server.AppError.{anyhow, err}
use bge_m3_embedding_server.Embed.Types.{fp32, fp16}
use bge_m3_embedding_server.Worker.Dispatch.{tensor_rt}
use bge_m3_embedding_server.ModelFiles.{
  Hub, failed, gave, repo_of, onnx_filename, get_file, get_onnx, get_files, is_model_cached,
  baai_repo, download_model_files,
}
use bge_m3_embedding_server.ModelFiles.Requests.{
  EndsAs, files_of, files_given, download_model_files-EndsAs,
}
use bge_m3_embedding_server.Session.{Build, GpuSessionConfig, linux_providers, execution_providers}

-- Each file is in the cache.
abbrev hub : Hub
hub = record {
  create_dir_all = λ dir. none;
  build = none;
  get = λ repo file. gave file;
  exists = λ path. true;
}

abbrev offline : Hub
offline = record hub { get = λ repo file. failed (codes "no network") }

abbrev build : Build
build = record {
  macos = false;
  tensorrt_feature = true;
  cuda_feature = true;
  coreml_profile = false;
  coreml_strategy = none;
}

abbrev config : GpuSessionConfig
config = record {
  cache_dir = codes "/cache";
  model_variant = fp32;
  max_seq_length = 8192;
  intra_threads = 0;
  ep = tensor_rt;
  device_id = 1;
  trt_max_workspace_bytes = none;
  gpu_mem_limit_bytes = none;
}

-- Without the feature, the selected GPU is not used, and the session is loaded all the same.
falls_back : execution_providers (record build { tensorrt_feature = false }) config ≡ []
unfolding execution_providers linux_providers
falls_back = refl

-- The first file fails, and no other is asked for.
asks_once :
    (download_model_files offline (codes "/cache") fp16 []).1 ≡ codes "onnx/model_fp16.onnx" ∷ []
unfolding download_model_files get_files get_onnx get_file repo_of
asks_once = refl

cached :
    is_model_cached
      (record hub { exists = λ path. false })
      (codes "/cache")
      baai_repo
      (onnx_filename fp32)
    ≡ false
unfolding is_model_cached
cached = refl

download_model_files-EndsAs_example :
    ((e : Text) × (hub.create_dir_all (codes "/cache") ≡ some e)
      × (download_model_files hub (codes "/cache") fp32 [] ≡ (
        err (
            anyhow (
              codes "Cannot create or access model cache directory "
              ++ (codes "/cache" ++ codes ": ")
              ++ e)),
        [],
      )))
    ⊎ (((e : Text) × (hub.create_dir_all (codes "/cache") ≡ none)
          × (hub.build ≡ some e)
          × (download_model_files hub (codes "/cache") fp32 []
              ≡ (err (anyhow (codes "Failed to build hf-hub API: " ++ e)), [])))
        ⊎ ((hub.create_dir_all (codes "/cache") ≡ none)
            × (hub.build ≡ none)
            × EndsAs hub
                (repo_of fp32)
                (files_of fp32)
                []
                (files_given hub fp32)
                (download_model_files hub (codes "/cache") fp32 [])))
download_model_files-EndsAs_example = download_model_files-EndsAs hub (codes "/cache") fp32
