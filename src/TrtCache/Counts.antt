-- ===== src/TrtCache/Counts.antt =====
-- src/embedder/trt_cache: the counts that the startup logs, and the enumeration of the warmup.
use bge_m3_embedding_server.Prelude.{
  ℕ, ◌+◌, ◌%◌, ◌^◌, ◌<◌, ◌≡◌, refl, sym, ap, ◌∙◌, ◌⊎◌, inl, inr, Bool, true, false, Option, none,
  some, List, [], ◌∷◌, length, if◌then◌else◌, Text, codes, text_eq, text_eq→≡, ends_with,
  Bool-cases, Option-cases, arith,
}
use bge_m3_embedding_server.ModelFiles.{join}
use bge_m3_embedding_server.Session.{engine_cache_path}
use bge_m3_embedding_server.TrtWarmup.{engine_files_for_sm}
use bge_m3_embedding_server.TrtCache.{
  Entry, FileSystem, is_regular, count_entry, count_entries, names_of, probe_name, probe_data,
  give_up, unlink_probe, check_read, after_write, after_create, run_write_probe,
  count_cache_entries, inspect, ensure_and_inspect, Phase, read_back, mismatch, write,
}

-- The entries with another name.
abbrev pub others : Text → List Entry → List Entry
others name [] = []
others name (e ∷ es) = let rest = others name es in if text_eq e.name name then rest else e ∷ rest

abbrev pub others_of : Text → Option (List Entry) → Option (List Entry)
others_of name none = none
others_of name (some es) = some (others name es)

-- The engine files of a listing, as the warmup enumerates them.
abbrev pub engines_in : List Entry → ℕ
engines_in es = length (engine_files_for_sm none (names_of es))

-- An entry is counted as an engine exactly if the warmup enumerates it.
count_entry-engine :
    (e : Entry) (es : List Entry) (c : ℕ × ℕ)
    → (((count_entry e c).0 ≡ (c.0 + 1) % 2 ^ 64) × (engines_in (e ∷ es) ≡ 1 + engines_in es))
      ⊎ (((count_entry e c).0 ≡ c.0) × (engines_in (e ∷ es) ≡ engines_in es))
unfolding count_entry names_of engine_files_for_sm
count_entry-engine e es (a, b) = elim (Bool-cases (is_regular e)) [
  | inr other ↦ inr (rw other refl, rw other refl)
  | inl file ↦ elim (Bool-cases (ends_with (codes ".engine") e.name)) [
    | inl engine ↦ inl (rw (file, engine) refl, rw (file, engine) (omega arith))
    | inr other ↦ elim (Bool-cases (ends_with (codes ".profile") e.name)) [
      | inl profile ↦ inr (rw (file, other, profile) refl, rw (file, other) refl)
      | inr neither ↦ inr (rw (file, other, neither) refl, rw (file, other) refl)
    ]
  ]
]

count_entries-engines :
    (es : List Entry) (c : ℕ × ℕ)
    → c.0 < 2 ^ 64
    → (count_entries es c).0 ≡ (c.0 + engines_in es) % 2 ^ 64
unfolding count_entries names_of engine_files_for_sm
count_entries-engines [] c h = omega arith
count_entries-engines (e ∷ es) c h = elim (count_entry-engine e es c) [
  | inl (counted, more) ↦ omega (arith, count_entries-engines es (count_entry e c) (omega arith))
  | inr (same, equal) ↦ omega (arith, count_entries-engines es (count_entry e c) (omega arith))
]

-- The file of the probe is neither an engine nor a profile.
count_entry-probe : (e : Entry) (c : ℕ × ℕ) → e.name ≡ probe_name → count_entry e c ≡ c
unfolding count_entry ends_with
count_entry-probe e c h = elim (Bool-cases (is_regular e)) [
  | inr other ↦ rw other refl
  | inl file ↦ rw (file, h) refl
]

count_entries-others :
    (es : List Entry) (c : ℕ × ℕ) → count_entries (others probe_name es) c ≡ count_entries es c
unfolding count_entries
count_entries-others [] c = refl
count_entries-others (e ∷ es) c = elim (Bool-cases (text_eq e.name probe_name)) [
  | inl probe ↦ rw probe (
      count_entries-others es c
      ∙ sym (ap (count_entries es) (count_entry-probe e c (text_eq→≡ e.name probe_name probe))))
  | inr other ↦ rw other (count_entries-others es (count_entry e c))
]

abbrev count_of : Option (List Entry) → ℕ × ℕ
count_of none = (0, 0)
count_of (some es) = count_entries es (0, 0)

count_of-others : (o : Option (List Entry)) → count_of (others_of probe_name o) ≡ count_of o
count_of-others none = refl
count_of-others (some es) = count_entries-others es (0, 0)

abbrev pub engines_of : Option (List Entry) → ℕ
engines_of none = 0
engines_of (some es) = engines_in es

count_of-engines : (o : Option (List Entry)) → (count_of o).0 ≡ engines_of o % 2 ^ 64
count_of-engines none = refl
count_of-engines (some es) = omega (arith, count_entries-engines es (0, 0) (omega arith))

module _ {Disk : Type 0} (fs : FileSystem Disk) where
  count_cache_entries_lem :
      (dir : Text) (d : Disk) → count_cache_entries fs dir d ≡ count_of (fs.read_dir dir d)
  unfolding count_cache_entries
  count_cache_entries_lem dir d = elim (Option-cases (fs.read_dir dir d)) [
    | inl unread ↦ rw (count_cache_entries, unread) refl
    | inr (es, read) ↦ rw (count_cache_entries, read) refl
  ]

  -- What is documented of the calls: a call on the file of the probe changes no other entry of its directory.
  pub record KeepsOthers : Type 0 where
    pub remove_others :
        (dir : Text) (d : Disk)
        → others_of probe_name (fs.read_dir dir (fs.remove_file (join dir probe_name) d).1)
          ≡ others_of probe_name (fs.read_dir dir d)
    pub create_others :
        (dir : Text) (d : Disk)
        → others_of probe_name (fs.read_dir dir (fs.create_new (join dir probe_name) d).1)
          ≡ others_of probe_name (fs.read_dir dir d)
    pub write_others :
        (dir t : Text) (d : Disk)
        → others_of probe_name (fs.read_dir dir (fs.write_all (join dir probe_name) t d).1)
          ≡ others_of probe_name (fs.read_dir dir d)

  module _ (laws : KeepsOthers) (dir : Text) where
    abbrev Listed : Disk → Disk → Type 0
    Listed d d' =
        others_of probe_name (fs.read_dir dir d') ≡ others_of probe_name (fs.read_dir dir d)

    give_up-Listed :
        (phase : Phase) (d : Disk) → Listed d (give_up fs phase (join dir probe_name) d).1
    unfolding give_up
    give_up-Listed phase d = laws.remove_others dir d

    unlink_probe-Listed :
        (d : Disk) (r : Bool × Disk) → Listed d r.1 → Listed d (unlink_probe fs r).1
    unfolding unlink_probe
    unlink_probe-Listed d (true, d') h = h
    unlink_probe-Listed d (false, d') h = h

    check_read-Listed :
        (bytes : Option Text) (d : Disk) → Listed d (check_read fs (join dir probe_name) bytes d).1
    unfolding check_read
    check_read-Listed none d = give_up-Listed read_back d
    check_read-Listed (some buf) d = elim (Bool-cases (text_eq buf probe_data)) [
      | inl equal ↦ rw equal (unlink_probe-Listed d _ (laws.remove_others dir d))
      | inr differs ↦ rw differs (give_up-Listed mismatch d)
    ]

    after_write-Listed :
        (d : Disk) (r : Bool × Disk)
        → Listed d r.1
        → Listed d (after_write fs (join dir probe_name) r).1
    unfolding after_write
    after_write-Listed d (false, d') h = give_up-Listed write d' ∙ h
    after_write-Listed d (true, d') h = check_read-Listed (fs.read (join dir probe_name) d') d' ∙ h

    after_create-Listed :
        (d : Disk) (r : Bool × Disk)
        → Listed d r.1
        → Listed d (after_create fs (join dir probe_name) r).1
    unfolding after_create
    after_create-Listed d (false, d') h = h
    after_create-Listed d (true, d') h =
        after_write-Listed d (fs.write_all (join dir probe_name) probe_data d')
          (laws.write_others dir probe_data d' ∙ h)

    run_write_probe-Listed : (d : Disk) → Listed d (run_write_probe fs dir d).1
    unfolding run_write_probe
    run_write_probe-Listed d =
        let stale = (fs.remove_file (join dir probe_name) d).1 in
        after_create-Listed d (fs.create_new (join dir probe_name) stale)
          (laws.create_others dir stale ∙ laws.remove_others dir d)

    run_write_probe-count_cache_entries :
        (d : Disk)
        → count_cache_entries fs dir (run_write_probe fs dir d).1 ≡ count_of (fs.read_dir dir d)
    run_write_probe-count_cache_entries d =
        count_cache_entries_lem dir (run_write_probe fs dir d).1
        ∙ sym (count_of-others (fs.read_dir dir (run_write_probe fs dir d).1))
        ∙ ap count_of (run_write_probe-Listed d)
        ∙ count_of-others (fs.read_dir dir d)

    inspect-path : (r : Bool × Disk) → (inspect fs dir r).info.path ≡ dir
    unfolding inspect
    inspect-path (true, d) = refl
    inspect-path (false, d) = refl

    inspect-engines :
        (r : Bool × Disk)
        → r.0 ≡ true
        → (inspect fs dir r).info.engine_count ≡ engines_of (fs.read_dir dir r.1) % 2 ^ 64
    unfolding inspect
    inspect-engines (true, d) h =
        ap (λ c. c.0) (run_write_probe-count_cache_entries d) ∙ count_of-engines (fs.read_dir dir d)
    inspect-engines (false, d) h = cc h

  -- If the directory of the engines can be made, the number of engines that the startup reports is that which the warmup enumerates
  -- in the directory as it was before the write probe, modulo 2^64, and 0 if it cannot be read: the probe is
  -- never counted. It is assumed that a call on the file of the probe changes no other entry of its directory.
  pub ensure_and_inspect-engines :
      KeepsOthers
      → (cache_dir : Text) (d : Disk) → (fs.create_dir_all (engine_cache_path cache_dir) d).0 ≡ true
      → ((ensure_and_inspect fs cache_dir d).info.path ≡ engine_cache_path cache_dir)
        × ((ensure_and_inspect fs cache_dir d).info.engine_count
            ≡ engines_of (
                fs.read_dir
                  (engine_cache_path cache_dir)
                  (fs.create_dir_all (engine_cache_path cache_dir) d).1)
              % 2 ^ 64)
  unfolding ensure_and_inspect
  ensure_and_inspect-engines laws cache_dir d made =
      let r = fs.create_dir_all (engine_cache_path cache_dir) d in
      (
        inspect-path laws (engine_cache_path cache_dir) r,
        inspect-engines laws (engine_cache_path cache_dir) r made,
      )
