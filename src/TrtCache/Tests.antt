-- ===== src/TrtCache/Tests.antt =====
-- A disk that works, a disk that cannot be read back, and the logs of the startup on them.
use bge_m3_embedding_server.Prelude.{
  ◌%◌, ◌^◌, ◌≡◌, ◌≢◌, refl, inl, inr, Bool, true, false, Option, none, some, List, [], ◌∷◌, Text,
  codes, text_eq, text_eq_refl, text_eq→≡, if◌then◌else◌, Bool-cases, ends_with,
}
use bge_m3_embedding_server.ModelFiles.{join}
use bge_m3_embedding_server.Session.{engine_cache_path}
use bge_m3_embedding_server.TrtWarmup.{engine_files_for_sm, matches_sm_suffix}
use bge_m3_embedding_server.TrtCache.{
  Entry, FileSystem, probe_succeeded, probe_failed, mismatch, unlink, probe_name, probe_data,
  fsync_done, basenames, is_regular, count_entry, count_entries, names_of, give_up, unlink_probe,
  check_read, after_write, after_create, run_write_probe, count_cache_entries, inspect,
  ensure_and_inspect, engine_basenames_for_sm, unfiltered_total,
  log_engine_basenames_before_prewarm_for_sm, fsync_files, fsync_cache_dir,
}
use bge_m3_embedding_server.TrtCache.WriteProbe.{IsFileSystem, EndsWell, run_write_probe-EndsWell}
use bge_m3_embedding_server.TrtCache.Counts.{
  KeepsOthers, others_of, engines_of, ensure_and_inspect-engines,
}

-- A disk: what each path holds.
abbrev Disk : Type 0
Disk = Text → Option Text

abbrev put : Text → Option Text → Disk → Disk
put p v d q = if text_eq q p then v else d q

abbrev content : Disk → Text → Option Text
content d q = d q

abbrev is_some : Option Text → Bool
is_some none = false
is_some (some t) = true

abbrev removal : Text → Option Text → Disk → Bool × Disk
removal p none d = (false, d)
removal p (some t) d = (true, put p none d)

abbrev creation : Text → Option Text → Disk → Bool × Disk
creation p none d = (true, put p (some []) d)
creation p (some t) d = (false, d)

abbrev works : FileSystem Disk
works = record {
  create_dir_all = λ p d. (true, d);
  read_dir = λ p d. some [];
  create_new = λ p d. creation p (d p) d;
  write_all = λ p t d. (true, put p (some t) d);
  read = λ p d. d p;
  remove_file = λ p d. removal p (d p) d;
  sync_all = λ p d. true;
}

put_self : (p : Text) (v : Option Text) (d : Disk) → put p v d p ≡ v
put_self p v d = rw (text_eq_refl p) refl

put_other : (p q : Text) (v : Option Text) (d : Disk) → q ≢ p → put p v d q ≡ d q
put_other p q v d h = elim (Bool-cases (text_eq q p)) [
  | inl same ↦ absurd (h (text_eq→≡ q p same))
  | inr other ↦ rw other refl
]

removal_gone :
    (p : Text) (o : Option Text) (d : Disk) → (removal p o d).0 ≡ true → (removal p o d).1 p ≡ none
removal_gone p none d h = cc h
removal_gone p (some t) d h = put_self p none d

removal_kept :
    (p : Text) (o : Option Text) (d : Disk) → (removal p o d).0 ≡ false → (removal p o d).1 p ≡ d p
removal_kept p none d h = refl
removal_kept p (some t) d h = cc h

removal_other : (p q : Text) (o : Option Text) (d : Disk) → q ≢ p → (removal p o d).1 q ≡ d q
removal_other p q none d h = refl
removal_other p q (some t) d h = put_other p q none d h

creation_kept :
    (p : Text) (o : Option Text) (d : Disk)
    → (creation p o d).0 ≡ false
    → (creation p o d).1 p ≡ d p
creation_kept p none d h = cc h
creation_kept p (some t) d h = refl

creation_other : (p q : Text) (o : Option Text) (d : Disk) → q ≢ p → (creation p o d).1 q ≡ d q
creation_other p q none d h = put_other p q (some []) d h
creation_other p q (some t) d h = refl

works-IsFileSystem : IsFileSystem works content
works-IsFileSystem = record {
  removed = λ p d. removal_gone p (d p) d;
  not_removed = λ p d. removal_kept p (d p) d;
  not_created = λ p d. creation_kept p (d p) d;
  remove_other = λ p q d. removal_other p q (d p) d;
  create_other = λ p q d. creation_other p q (d p) d;
  write_other = λ p q t d. put_other p q (some t) d;
}

-- A file of an earlier start is there.
abbrev stale : Disk
stale = put (codes "/e/.write_probe") (some (codes "trt-p")) (λ q. none)

run_write_probe-EndsWell_example :
    EndsWell works content
      (join (codes "/e") probe_name)
      stale
      (run_write_probe works (codes "/e") stale)
run_write_probe-EndsWell_example =
    run_write_probe-EndsWell works content works-IsFileSystem (codes "/e") stale

succeeds : (run_write_probe works (codes "/e") stale).0 ≡ probe_succeeded ∷ []
unfolding run_write_probe after_create after_write check_read unlink_probe
succeeds = refl

-- What is written is cut off.
garbled :
    (run_write_probe
      (record works { write_all = λ p t d. (true, put p (some (codes "trt")) d) })
      (codes "/e")
      stale).0
    ≡ probe_failed mismatch ∷ []
unfolding run_write_probe after_create after_write check_read give_up
garbled = refl

-- The directory of engines, as a disk that has the file of the probe or has it not.
abbrev entry : Text → Bool → Entry
entry name is_file = record { name = name; file_type = some is_file }

abbrev listing : Bool → List Entry
listing present =
    entry (codes "a_sm75.engine") true
    ∷ entry (codes "b_sm86.engine") true
    ∷ entry (codes "a.profile") true
    ∷ entry (codes "old.engine") false
    ∷ (if present then entry probe_name true ∷ [] else [])

abbrev engine_dir : FileSystem Bool
engine_dir = record {
  create_dir_all = λ p d. (true, d);
  read_dir = λ p d. some (listing d);
  create_new = λ p d. (true, true);
  write_all = λ p t d. (true, true);
  read = λ p d. some probe_data;
  -- The removal is refused.
  remove_file = λ p d. (false, d);
  sync_all = λ p d. ends_with (codes "e") p;
}

present_or_not :
    (d : Bool)
    → others_of probe_name (some (listing true)) ≡ others_of probe_name (some (listing d))
present_or_not true = refl
present_or_not false = refl

engine_dir-KeepsOthers : KeepsOthers engine_dir
engine_dir-KeepsOthers = record {
  remove_others = λ dir d. refl;
  create_others = λ dir d. present_or_not d;
  write_others = λ dir t d. present_or_not d;
}

ensure_and_inspect-engines_example :
    ((ensure_and_inspect engine_dir (codes "/c") false).info.path ≡ engine_cache_path (codes "/c"))
    × ((ensure_and_inspect engine_dir (codes "/c") false).info.engine_count
        ≡ engines_of (some (listing false)) % 2 ^ 64)
ensure_and_inspect-engines_example =
    ensure_and_inspect-engines engine_dir engine_dir-KeepsOthers (codes "/c") false refl

-- The file of the probe is left, and is not counted.
counts :
    ((ensure_and_inspect engine_dir (codes "/c") false).info.engine_count ≡ 2)
    × ((ensure_and_inspect engine_dir (codes "/c") false).log
        ≡ probe_succeeded ∷ probe_failed unlink ∷ [])
    × ((ensure_and_inspect engine_dir (codes "/c") false).disk ≡ true)
unfolding ensure_and_inspect inspect run_write_probe after_create after_write check_read
    unlink_probe count_cache_entries count_entries count_entry is_regular ends_with
counts = (refl, refl, refl)

logged :
    log_engine_basenames_before_prewarm_for_sm engine_dir
      (λ ts. ts)
      (codes "/c")
      (some (codes "sm75"))
      false
    ≡ basenames (record {
      count = 1;
      total_count = 2;
      truncated = false;
      listed = codes "a_sm75.engine" ∷ [];
    })
unfolding log_engine_basenames_before_prewarm_for_sm engine_basenames_for_sm unfiltered_total
    names_of is_regular engine_files_for_sm ends_with matches_sm_suffix
logged = refl

synced : fsync_cache_dir engine_dir (codes "/c/e") false ≡ fsync_done 3 ∷ []
unfolding fsync_cache_dir fsync_files names_of is_regular ends_with
synced = refl
