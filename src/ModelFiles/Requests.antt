-- ===== src/ModelFiles/Requests.antt =====
-- src/embedder/model_files.rs: which files the hub is asked for, and what the first failure does.
use bge_m3_embedding_server.Prelude.{
  ◌≡◌, refl, sym, ap, subst, ◌∙◌, ◌⊎◌, inl, inr, Bool, true, false, none, some, List, [], ◌∷◌, ◌++◌,
  Text, codes, Option-cases,
}
use bge_m3_embedding_server.AppError.{Result, ok, err, panic, anyhow}
use bge_m3_embedding_server.Embed.Types.{ModelVariant, fp32, fp16, int8}
use bge_m3_embedding_server.ModelFiles.{
  Repo, Attempt, failed, gave, Hub, ModelFiles, repo_of, onnx_filename, answer_of, get_file,
  get_onnx, download_model_files, ◌>>=◌, check, Asking, get_files, go_on, xenova_repo, baai_repo,
  pure,
}

-- The files of a variant, in the order in which they are needed.
abbrev pub files_of : ModelVariant → List Text
files_of fp32 =
    codes "onnx/model.onnx"
    ∷ codes "onnx/model.onnx_data"
    ∷ codes "onnx/Constant_7_attr__value"
    ∷ codes "tokenizer.json"
    ∷ []
files_of fp16 = codes "onnx/model_fp16.onnx" ∷ codes "tokenizer.json" ∷ []
files_of int8 = codes "onnx/model_int8.onnx" ∷ codes "tokenizer.json" ∷ []

abbrev pub is_given : Attempt → Bool
is_given (failed e) = false
is_given (gave path) = true

abbrev path_of : Attempt → Text
path_of (failed e) = []
path_of (gave path) = path

-- Each file is given, and no more is asked; or some are given, the next one fails, and nothing after it is asked for.
abbrev pub EndsAs :
    Hub → Repo → List Text → List Text → ModelFiles → Result ModelFiles × List Text → Type 0
EndsAs hub repo [] asked files r = r ≡ (ok files, asked)
EndsAs hub repo (file ∷ rest) asked files r =
    ((is_given (hub.get repo file) ≡ true) × EndsAs hub repo rest (file ∷ asked) files r)
    ⊎ ((e : Text) × (hub.get repo file ≡ failed e)
        × (r
            ≡ (err (anyhow (codes "Failed to get " ++ (file ++ (codes ": " ++ e)))), file ∷ asked)))

-- The two paths, where they are given.
abbrev pub files_given : Hub → ModelVariant → ModelFiles
files_given hub variant = record {
  onnx_path = path_of (hub.get (repo_of variant) (onnx_filename variant));
  tokenizer_path = path_of (hub.get (repo_of variant) (codes "tokenizer.json"));
}

Attempt-cases : (a : Attempt) → ((e : Text) × (a ≡ failed e)) ⊎ ((p : Text) × (a ≡ gave p))
Attempt-cases (failed e) = inl (e, refl)
Attempt-cases (gave p) = inr (p, refl)

go_on_assoc :
    {A B C : Type 0} (r : Result A × List Text) (f : A → Asking B) (k : B → Asking C)
    → go_on (go_on r f) k ≡ go_on r (λ a. f a >>= k)
go_on_assoc (ok a, asked) f k = refl
go_on_assoc (err e, asked) f k = refl
go_on_assoc (panic, asked) f k = refl

module _ (hub : Hub) where
  EndsAs-get :
      (repo : Repo) (file : Text) (rest asked : List Text) (files : ModelFiles)
      (k : Text → Asking ModelFiles)
      → ((p : Text)
          → hub.get repo file ≡ gave p
          → EndsAs hub repo rest (file ∷ asked) files (k p (file ∷ asked)))
      → EndsAs hub repo (file ∷ rest) asked files ((get_file hub repo file >>= k) asked)
  unfolding get_file
  EndsAs-get repo file rest asked files k next = elim (Attempt-cases (hub.get repo file)) [
    | inl (e, missing) ↦ inr (e, missing, ap after missing)
    | inr (p, given) ↦ inl (
      ap is_given given,
      subst (EndsAs hub repo rest (file ∷ asked) files) (sym (ap after given)) (next p given),
    )
  ]
    where
      after : Attempt → Result ModelFiles × List Text
      after a = go_on (answer_of file a, file ∷ asked) k

  -- The same where the file is the first part of a longer computation.
  EndsAs-get_then :
      (repo : Repo) (file : Text) (rest asked : List Text) (files : ModelFiles)
      (f : Text → Asking Text) (k : Text → Asking ModelFiles)
      → ((p : Text)
          → hub.get repo file ≡ gave p
          → EndsAs hub repo rest (file ∷ asked) files ((f p >>= k) (file ∷ asked)))
      → EndsAs hub repo (file ∷ rest) asked files ((get_file hub repo file >>= f >>= k) asked)
  EndsAs-get_then repo file rest asked files f k next =
      subst (EndsAs hub repo (file ∷ rest) asked files)
        (sym (go_on_assoc (get_file hub repo file asked) f k))
        (EndsAs-get repo file rest asked files (λ a. f a >>= k) next)

  -- The paths of the first file and the last one are the result.
  abbrev ends_of : Repo → Text → Text → ModelFiles
  ends_of repo first last = record {
    onnx_path = path_of (hub.get repo first);
    tokenizer_path = path_of (hub.get repo last);
  }

  last_file :
      (repo : Repo) (first last p : Text) (asked : List Text)
      → hub.get repo first ≡ gave p
      → EndsAs hub repo (last ∷ []) asked (ends_of repo first last) (
          (get_file hub repo last >>= λ q. pure (record { onnx_path = p; tokenizer_path = q }))
            asked)
  last_file repo first last p asked given =
      EndsAs-get repo last [] asked (ends_of repo first last)
        (λ q. pure (record { onnx_path = p; tokenizer_path = q }))
        λ q given'.
          ap (λ a. (ok (record { onnx_path = path_of a; tokenizer_path = q }), last ∷ asked))
            (sym given)
          ∙ ap
              (λ a. (
                ok (record {
                  onnx_path = path_of (hub.get repo first);
                  tokenizer_path = path_of a;
                }),
                last ∷ asked,
              ))
              (sym given')

  get_files-EndsAs :
      (variant : ModelVariant)
      → EndsAs hub
          (repo_of variant)
          (files_of variant)
          []
          (files_given hub variant)
          (get_files hub variant [])
  unfolding get_files get_onnx repo_of onnx_filename
  get_files-EndsAs fp16 =
      EndsAs-get xenova_repo (codes "onnx/model_fp16.onnx") (codes "tokenizer.json" ∷ []) []
        (files_given hub fp16) _
        λ p given.
          last_file xenova_repo (codes "onnx/model_fp16.onnx") (codes "tokenizer.json") p _ given
  get_files-EndsAs int8 =
      EndsAs-get xenova_repo (codes "onnx/model_int8.onnx") (codes "tokenizer.json" ∷ []) []
        (files_given hub int8) _
        λ p given.
          last_file xenova_repo (codes "onnx/model_int8.onnx") (codes "tokenizer.json") p _ given
  get_files-EndsAs fp32 =
      EndsAs-get_then baai_repo (codes "onnx/model.onnx")
        (codes "onnx/model.onnx_data"
          ∷ codes "onnx/Constant_7_attr__value"
          ∷ codes "tokenizer.json"
          ∷ [])
        [] (files_given hub fp32) _ _
        λ p given.
          EndsAs-get_then baai_repo (codes "onnx/model.onnx_data")
            (codes "onnx/Constant_7_attr__value" ∷ codes "tokenizer.json" ∷ []) _
            (files_given hub fp32) _ _
            λ p2 given2.
              EndsAs-get_then baai_repo (codes "onnx/Constant_7_attr__value")
                (codes "tokenizer.json" ∷ []) _ (files_given hub fp32) _ _
                λ p3 given3.
                  last_file baai_repo (codes "onnx/model.onnx") (codes "tokenizer.json") p _ given

  -- If the directory of the cache cannot be made, the result is that error, and nothing is asked of the hub; so it is if
  -- the client cannot be built. If both succeed, the files of the variant are asked for in order, up to the first that
  -- fails, whose failure is the error, and if none fails, the result is the paths of the model and the tokenizer.
  pub download_model_files-EndsAs :
      (cache_dir : Text) (variant : ModelVariant)
      → ((e : Text) × (hub.create_dir_all cache_dir ≡ some e)
          × (download_model_files hub cache_dir variant [] ≡ (
            err (
                anyhow (
                  codes "Cannot create or access model cache directory "
                  ++ (cache_dir ++ codes ": ")
                  ++ e)),
            [],
          )))
        ⊎ (((e : Text) × (hub.create_dir_all cache_dir ≡ none)
              × (hub.build ≡ some e)
              × (download_model_files hub cache_dir variant []
                  ≡ (err (anyhow (codes "Failed to build hf-hub API: " ++ e)), [])))
            ⊎ ((hub.create_dir_all cache_dir ≡ none)
                × (hub.build ≡ none)
                × EndsAs hub
                    (repo_of variant)
                    (files_of variant)
                    []
                    (files_given hub variant)
                    (download_model_files hub cache_dir variant [])))
  unfolding download_model_files
  download_model_files-EndsAs cache_dir variant =
      elim (Option-cases (hub.create_dir_all cache_dir)) [
        | inr (e, made) ↦ inl (e, made, rw (made, check, download_model_files) refl)
        | inl made ↦ elim (Option-cases hub.build) [
          | inr (e, built) ↦
              inr (inl (e, made, built, rw (made, built, check, download_model_files) refl))
          | inl built ↦
              let same : download_model_files hub cache_dir variant [] ≡ get_files hub variant [] =
                rw (made, check, download_model_files) (rw (built, check) refl) in
              inr (inr (made, built, rw same (get_files-EndsAs variant)))
        ]
      ]
