-- ===== src/TrtCache/Logged.antt =====
-- src/embedder/trt_cache/prewarm_log.rs: the numbers of the log line on the engines before the warmup.
use bge_m3_embedding_server.Prelude.{
  ℕ, ◌≤◌, min, suc, zero, ◌≡◌, refl, ◌⊎◌, inl, inr, Option, none, some, List, [], ◌∷◌, length, ltb,
  if◌then◌else◌, Text, codes, ends_with, Bool-cases, Option-cases, arith,
}
use bge_m3_embedding_server.TrtWarmup.{engine_files_for_sm, matches_sm_suffix}
use bge_m3_embedding_server.TrtCache.{
  Entry, FileSystem, Basenames, basenames, basenames_unread, names_of, truncate,
  engine_basenames_for_sm, unfiltered_total, log_engine_basenames_before_prewarm_for_sm,
}

length-truncate : (n : ℕ) (ts : List Text) → length (truncate n ts) ≡ min n (length ts)
unfolding truncate
length-truncate n [] = omega arith
length-truncate zero (t ∷ ts) = omega arith
length-truncate (suc n) (t ∷ ts) = omega (arith, length-truncate n ts)

-- The files that match a tag are some of all the engine files.
length-engine_files_for_sm :
    (sm : Option Text) (names : List Text)
    → length (engine_files_for_sm sm names) ≤ length (engine_files_for_sm none names)
unfolding engine_files_for_sm
length-engine_files_for_sm none names = omega arith
length-engine_files_for_sm (some tag) [] = omega arith
length-engine_files_for_sm (some tag) (name ∷ names) =
    elim (Bool-cases (ends_with (codes ".engine") name)) [
      | inr other ↦ rw other (length-engine_files_for_sm (some tag) names)
      | inl engine ↦ elim (Bool-cases (matches_sm_suffix name tag)) [
        | inl fits ↦ rw (engine, fits) (omega (arith, length-engine_files_for_sm (some tag) names))
        | inr differs ↦
            rw (engine, differs) (omega (arith, length-engine_files_for_sm (some tag) names))
      ]
    ]

-- The numbers of a line are in order, for the tag that was asked for.
abbrev pub IsConsistent : Option Text → Basenames → Type 0
IsConsistent sm b =
    (b.count ≤ b.total_count)
    × (sm ≡ none → b.count ≡ b.total_count)
    × (length b.listed ≡ min 64 b.count)
    × (b.truncated ≡ ltb 64 b.count)

module _ {Disk : Type 0} (fs : FileSystem Disk) (sort : List Text → List Text)
    (length-sort : (ts : List Text) → length (sort ts) ≡ length ts) where
  abbrev basenames_of : Text → Option Text → Disk → List Text → Basenames
  basenames_of dir sm d found = record {
    count = length found;
    total_count = unfiltered_total fs sort dir sm d (length found);
    truncated = ltb 64 (length found);
    listed = if ltb 64 (length found) then truncate 64 found else found;
  }

  listed_lem :
      (found : List Text)
      → length (if ltb 64 (length found) then truncate 64 found else found) ≡ min 64 (length found)
  listed_lem found = elim (Bool-cases (ltb 64 (length found))) [
    | inl more ↦ rw more (length-truncate 64 found)
    | inr fits ↦ rw fits (ground arith)
  ]

  unfiltered_total_lem :
      (dir : Text) (sm : Option Text) (d : Disk) (es : List Entry)
      → fs.read_dir dir d ≡ some es
      → (found : List Text) → found ≡ sort (engine_files_for_sm sm (names_of es))
      → (length found ≤ unfiltered_total fs sort dir sm d (length found))
        × (sm ≡ none → length found ≡ unfiltered_total fs sort dir sm d (length found))
  unfolding unfiltered_total
  unfiltered_total_lem dir none d es read found eq = (omega arith, λ h. refl)
  unfiltered_total_lem dir (some tag) d es read found eq =
      let total : unfiltered_total fs sort dir (some tag) d (length found)
          ≡ length (sort (engine_files_for_sm none (names_of es))) =
        rw (unfiltered_total, engine_basenames_for_sm, read) refl in
      let fewer : length found ≤ unfiltered_total fs sort dir (some tag) d (length found) =
        rw
          (
            total,
            eq,
            length-sort (engine_files_for_sm (some tag) (names_of es)),
            length-sort (engine_files_for_sm none (names_of es)),
          )
          (length-engine_files_for_sm (some tag) (names_of es)) in
      (fewer, λ h. cc h)

  -- If the directory cannot be read, the line says so. Otherwise it counts at most as many engines for the tag as there are in
  -- all, as many if there is no tag, and lists the first 64 of them, and says that it has left out the others
  -- exactly if there are more. The sort is assumed to keep the number of elements.
  pub log_engine_basenames_before_prewarm_for_sm-IsConsistent :
      (dir : Text) (sm : Option Text) (d : Disk)
      → ((fs.read_dir dir d ≡ none)
          × (log_engine_basenames_before_prewarm_for_sm fs sort dir sm d ≡ basenames_unread))
        ⊎ ((b : Basenames) × (log_engine_basenames_before_prewarm_for_sm fs sort dir sm d
              ≡ basenames b)
            × IsConsistent sm b)
  unfolding log_engine_basenames_before_prewarm_for_sm
  log_engine_basenames_before_prewarm_for_sm-IsConsistent dir sm d =
      elim (Option-cases (fs.read_dir dir d)) [
        | inl unread ↦ inl (
          unread,
          rw (log_engine_basenames_before_prewarm_for_sm, engine_basenames_for_sm, unread) refl,
        )
        | inr (es, read) ↦
            let found = sort (engine_files_for_sm sm (names_of es)) in
            let (fewer, all) = unfiltered_total_lem dir sm d es read found refl in
            inr (
              basenames_of dir sm d found,
              rw (log_engine_basenames_before_prewarm_for_sm, engine_basenames_for_sm, read) refl,
              (fewer, all, listed_lem found, refl),
            )
      ]
