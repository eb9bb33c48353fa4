-- ===== src/TrtCache.antt =====
-- src/embedder/trt_cache: inspect.rs, fsync.rs, prewarm_log.rs and the basenames of enumerate.rs. What the
-- startup does with the directory of the engines. Log lines are values, without the text of an error.
pub mod WriteProbe
pub mod Counts
pub mod Logged
mod Tests
use bge_m3_embedding_server.Prelude.{
  ℕ, ◌+◌, ◌%◌, ◌^◌, Bool, true, false, ◌&&◌, not, Option, none, some, List, [], ◌∷◌, ◌++◌, length,
  ltb, ◌==◌, zero, suc, if◌then◌else◌, Text, codes, text_eq, ends_with,
}
use bge_m3_embedding_server.ModelFiles.{join}
use bge_m3_embedding_server.Session.{engine_cache_path}
use bge_m3_embedding_server.TrtWarmup.{engine_files_for_sm}

-- An entry that `read_dir` gives, and whether it is a file, where `file_type` tells it.
pub record Entry : Type 0 where
  pub name : Text
  pub file_type : Option Bool

-- What a file system does: whether a call succeeds, and the disk that it leaves.
pub record FileSystem (Disk : Type 0) : Type 0 where
  pub create_dir_all : Text → Disk → Bool × Disk
  pub read_dir : Text → Disk → Option (List Entry)
  pub create_new : Text → Disk → Bool × Disk
  pub write_all : Text → Text → Disk → Bool × Disk
  -- The bytes of a file, where it can be opened and read to its end.
  pub read : Text → Disk → Option Text
  pub remove_file : Text → Disk → Bool × Disk
  pub sync_all : Text → Disk → Bool

pub data Phase : Type 0 where
  create write read_back mismatch unlink : Phase

pub record TrtCacheInfo : Type 0 where
  pub path : Text
  pub engine_count : ℕ
  pub profile_count : ℕ

-- The basenames that are logged before the warmup.
pub record Basenames : Type 0 where
  pub count : ℕ
  pub total_count : ℕ
  pub truncated : Bool
  pub listed : List Text

pub data LogLine : Type 0 where
  not_created : LogLine
  probe_failed : Phase → LogLine
  probe_succeeded : LogLine
  cache_empty : LogLine
  cache_found : TrtCacheInfo → LogLine
  basenames_unread : LogLine
  basenames : Basenames → LogLine
  fsync_unread : LogLine
  fsync_file_failed : Text → LogLine
  fsync_done : ℕ → LogLine
  fsync_dir_failed : LogLine

abbrev pub probe_name : Text
probe_name = codes ".write_probe"

abbrev pub probe_data : Text
probe_data = codes "trt-probe"

unfoldable pub is_regular : Entry → Bool
is_regular e = elim e.file_type [ none ↦ false | some b ↦ b ]

-- The body of the loop of `count_cache_entries`.
unfoldable pub count_entry : Entry → ℕ × ℕ → ℕ × ℕ
unfolding is_regular
count_entry e (engines, profiles) =
    if not (is_regular e)
    then (engines, profiles)
    else if ends_with (codes ".engine") e.name
    then ((engines + 1) % 2 ^ 64, profiles)
    else if ends_with (codes ".profile") e.name
    then (engines, (profiles + 1) % 2 ^ 64)
    else (engines, profiles)

unfoldable pub count_entries : List Entry → ℕ × ℕ → ℕ × ℕ
unfolding count_entry
count_entries [] counts = counts
count_entries (e ∷ es) counts = count_entries es (count_entry e counts)

-- The names of the files.
unfoldable pub names_of : List Entry → List Text
unfolding is_regular
names_of [] = []
names_of (e ∷ es) = let rest = names_of es in if is_regular e then e.name ∷ rest else rest

unfoldable pub truncate : ℕ → List Text → List Text
truncate n [] = []
truncate zero (t ∷ ts) = []
truncate (suc n) (t ∷ ts) = t ∷ truncate n ts

unfoldable pub log_cache_state : TrtCacheInfo → LogLine
log_cache_state info = if info.engine_count == 0 then cache_empty else cache_found info

module _ {Disk : Type 0} (fs : FileSystem Disk) where
  -- An error with its phase, after which the file is removed as far as that succeeds.
  unfoldable pub give_up : Phase → Text → Disk → List LogLine × Disk
  give_up phase path d = (probe_failed phase ∷ [], (fs.remove_file path d).1)

  -- The removal of a file that was read back right.
  unfoldable pub unlink_probe : Bool × Disk → List LogLine × Disk
  unlink_probe (true, d) = (probe_succeeded ∷ [], d)
  unlink_probe (false, d) = (probe_succeeded ∷ probe_failed unlink ∷ [], d)

  unfoldable pub check_read : Text → Option Text → Disk → List LogLine × Disk
  unfolding give_up unlink_probe
  check_read path none d = give_up read_back path d
  check_read path (some buf) d =
      if text_eq buf probe_data
      then unlink_probe (fs.remove_file path d)
      else give_up mismatch path d

  unfoldable pub after_write : Text → Bool × Disk → List LogLine × Disk
  unfolding give_up check_read
  after_write path (false, d) = give_up write path d
  after_write path (true, d) = check_read path (fs.read path d) d

  unfoldable pub after_create : Text → Bool × Disk → List LogLine × Disk
  unfolding after_write
  after_create path (false, d) = (probe_failed create ∷ [], d)
  after_create path (true, d) = after_write path (fs.write_all path probe_data d)

  -- A stale file of an earlier start is removed first, whether that succeeds or not.
  unfoldable pub run_write_probe : Text → Disk → List LogLine × Disk
  unfolding after_create
  run_write_probe dir d =
      let path = join dir probe_name in
      after_create path (fs.create_new path (fs.remove_file path d).1)

  unfoldable pub count_cache_entries : Text → Disk → ℕ × ℕ
  unfolding count_entries
  count_cache_entries dir d = elim (fs.read_dir dir d) [
    | none ↦ (0, 0)
    | some entries ↦ count_entries entries (0, 0)
  ]

  pub record Inspected : Type 0 where
    pub info : TrtCacheInfo
    pub log : List LogLine
    pub disk : Disk

  unfoldable pub inspect : Text → Bool × Disk → Inspected
  unfolding run_write_probe count_cache_entries
  inspect path (false, d) = record {
    info = record { path = path; engine_count = 0; profile_count = 0 };
    log = not_created ∷ [];
    disk = d;
  }
  inspect path (true, d) =
      let (log, d') = run_write_probe path d in
      let (engine_count, profile_count) = count_cache_entries path d' in
      record {
        info = record { path = path; engine_count = engine_count; profile_count = profile_count };
        log = log;
        disk = d';
      }

  unfoldable pub ensure_and_inspect : Text → Disk → Inspected
  unfolding engine_cache_path inspect
  ensure_and_inspect cache_dir d =
      let path = engine_cache_path cache_dir in inspect path (fs.create_dir_all path d)

  -- `sort` is that of the standard library.
  unfoldable pub engine_basenames_for_sm :
      (List Text → List Text) → Text → Option Text → Disk → Option (List Text)
  unfolding names_of engine_files_for_sm
  engine_basenames_for_sm sort dir sm d = elim (fs.read_dir dir d) [
    | none ↦ none
    | some entries ↦ some (sort (engine_files_for_sm sm (names_of entries)))
  ]

  unfoldable pub unfiltered_total : (List Text → List Text) → Text → Option Text → Disk → ℕ → ℕ
  unfolding engine_basenames_for_sm
  unfiltered_total sort dir none d matching_total = matching_total
  unfiltered_total sort dir (some sm) d matching_total =
      elim (engine_basenames_for_sm sort dir none d) [ none ↦ matching_total | some v ↦ length v ]

  unfoldable pub log_engine_basenames_before_prewarm_for_sm :
      (List Text → List Text) → Text → Option Text → Disk → LogLine
  unfolding engine_basenames_for_sm truncate unfiltered_total
  log_engine_basenames_before_prewarm_for_sm sort dir sm d =
      elim (engine_basenames_for_sm sort dir sm d) [
        | none ↦ basenames_unread
        | some found ↦
            let matching_total = length found in
            let truncated = ltb 64 matching_total in
            basenames (record {
              count = matching_total;
              total_count = unfiltered_total sort dir sm d matching_total;
              truncated = truncated;
              listed = if truncated then truncate 64 found else found;
            })
      ]

  -- The files of the directory are synced one after the other; a failure is logged, and the next one is tried.
  unfoldable pub fsync_files : Text → List Text → Disk → List LogLine × ℕ
  fsync_files dir [] d = ([], 0)
  fsync_files dir (name ∷ names) d =
      let (log, synced) = fsync_files dir names d in
      if fs.sync_all (join dir name) d
      then (log, (synced + 1) % 2 ^ 64)
      else (fsync_file_failed (join dir name) ∷ log, synced)

  unfoldable pub fsync_cache_dir : Text → Disk → List LogLine
  unfolding fsync_files names_of
  fsync_cache_dir dir d = elim (fs.read_dir dir d) [
    | none ↦ fsync_unread ∷ []
    | some entries ↦
        let (log, synced) = fsync_files dir (names_of entries) d in
        if fs.sync_all dir d then log ++ fsync_done synced ∷ [] else log ++ fsync_dir_failed ∷ []
  ]
