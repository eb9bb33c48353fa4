-- ===== src/ModelFiles.antt =====
-- src/embedder/model_files.rs: the files of a model variant, from the cache or the hub. A path is its
-- text.
pub mod Requests
use bge_m3_embedding_server.Prelude.{
  Bool, Option, none, some, List, [], ◌∷◌, ◌++◌, ◌==◌, if◌then◌else◌, Text, codes,
}
use bge_m3_embedding_server.AppError.{Result, ok, err, panic, anyhow}
use bge_m3_embedding_server.Embed.Types.{ModelVariant, fp32, fp16, int8}

-- A repository with its pinned commit.
pub record Repo : Type 0 where
  pub repo_id : Text
  pub revision : Text

-- What the file system and the hub do: an attempt fails with a message, or gives a path.
pub data Attempt : Type 0 where
  failed : Text → Attempt
  gave : Text → Attempt

pub record Hub : Type 0 where
  -- The error of `create_dir_all`, and of building the client, if there is one.
  pub create_dir_all : Text → Option Text
  pub build : Option Text
  pub get : Repo → Text → Attempt
  pub exists : Text → Bool

pub record ModelFiles : Type 0 where
  pub onnx_path : Text
  pub tokenizer_path : Text

-- `REPO_ID`, `REPO_REVISION`, `XENOVA_REPO_ID` and `XENOVA_REPO_REVISION`
abbrev pub baai_repo : Repo
baai_repo = record {
  repo_id = codes "BAAI/bge-m3";
  revision = codes "5617a9f61b028005a4858fdac845db406aefb181";
}

abbrev pub xenova_repo : Repo
xenova_repo = record {
  repo_id = codes "Xenova/bge-m3";
  revision = codes "4de13258303883538bd53b696b452bf8099f0858";
}

unfoldable pub repo_of : ModelVariant → Repo
repo_of fp32 = baai_repo
repo_of fp16 = xenova_repo
repo_of int8 = xenova_repo

unfoldable pub onnx_filename : ModelVariant → Text
onnx_filename fp32 = codes "onnx/model.onnx"
onnx_filename fp16 = codes "onnx/model_fp16.onnx"
onnx_filename int8 = codes "onnx/model_int8.onnx"

-- `Path::join` with a relative path.
abbrev pub join : Text → Text → Text
join dir name = dir ++ (codes "/" ++ name)

-- `repo_id.replace('/', "--")`
unfoldable pub replace_slash : Text → Text
replace_slash [] = []
replace_slash (c ∷ t) =
    let rest = replace_slash t in if c == b'/' then b'-' ∷ b'-' ∷ rest else c ∷ rest

unfoldable pub is_model_cached : Hub → Text → Repo → Text → Bool
unfolding replace_slash
is_model_cached hub cache_dir repo file =
    let repo_dir = codes "models--" ++ replace_slash repo.repo_id in
    hub.exists (join (join (join (join cache_dir repo_dir) (codes "snapshots")) repo.revision) file)

-- A computation that asks the hub for files, with the files that it has asked for, the last one first.
abbrev pub Asking : Type 0 → Type 0
Asking A = List Text → Result A × List Text

abbrev pub go_on : {A B : Type 0} → Result A × List Text → (A → Asking B) → Result B × List Text
go_on (ok a, asked) f = f a asked
go_on (err e, asked) f = (err e, asked)
go_on (panic, asked) f = (panic, asked)

infixl 5 ◌>>=◌ ◌>>◌
abbrev pub ◌>>=◌ : {A B : Type 0} → Asking A → (A → Asking B) → Asking B
◌>>=◌ m f asked = go_on (m asked) f

abbrev pub ◌>>◌ : {B : Type 0} → Asking (Unit {0}) → Asking B → Asking B
m >> k = m >>= λ _. k

abbrev pub pure : {A : Type 0} → A → Asking A
pure a asked = (ok a, asked)

-- `Err(anyhow!("… {e}"))`, if there is an error.
abbrev pub check : Option Text → Text → Asking (Unit {0})
check none msg asked = (ok tt, asked)
check (some e) msg asked = (err (anyhow (msg ++ e)), asked)

abbrev pub answer_of : Text → Attempt → Result Text
answer_of file (gave path) = ok path
answer_of file (failed e) = err (anyhow (codes "Failed to get " ++ (file ++ (codes ": " ++ e))))

unfoldable pub get_file : Hub → Repo → Text → Asking Text
get_file hub repo file asked = (answer_of file (hub.get repo file), file ∷ asked)

-- The model file, with the files that it needs beside it.
unfoldable pub get_onnx : Hub → ModelVariant → Asking Text
unfolding get_file repo_of
get_onnx hub fp32 = do
  path ← get_file hub (repo_of fp32) (codes "onnx/model.onnx")
  weights ← get_file hub (repo_of fp32) (codes "onnx/model.onnx_data")
  constant ← get_file hub (repo_of fp32) (codes "onnx/Constant_7_attr__value")
  pure path
get_onnx hub fp16 = get_file hub (repo_of fp16) (codes "onnx/model_fp16.onnx")
get_onnx hub int8 = get_file hub (repo_of int8) (codes "onnx/model_int8.onnx")

unfoldable pub get_files : Hub → ModelVariant → Asking ModelFiles
unfolding get_onnx get_file repo_of
get_files hub variant = do
  onnx_path ← get_onnx hub variant
  tokenizer_path ← get_file hub (repo_of variant) (codes "tokenizer.json")
  pure (record { onnx_path = onnx_path; tokenizer_path = tokenizer_path })

unfoldable pub download_model_files : Hub → Text → ModelVariant → Asking ModelFiles
unfolding get_files
download_model_files hub cache_dir variant = do
  check (hub.create_dir_all cache_dir)
      (codes "Cannot create or access model cache directory " ++ (cache_dir ++ codes ": "))
  check hub.build (codes "Failed to build hf-hub API: ")
  get_files hub variant
