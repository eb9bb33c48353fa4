-- ===== src/TrtCache/WriteProbe.antt =====
-- src/embedder/trt_cache/inspect.rs: what the write probe leaves on the disk.
use bge_m3_embedding_server.Prelude.{
  ◌≡◌, ◌≢◌, refl, ◌∙◌, ◌⊎◌, inl, inr, Bool, true, false, Option, none, some, List, [], ◌∷◌, Text,
  text_eq, Bool-cases,
}
use bge_m3_embedding_server.ModelFiles.{join}
use bge_m3_embedding_server.TrtCache.{
  FileSystem, LogLine, Phase, probe_succeeded, probe_name, probe_data, give_up, unlink_probe,
  check_read, after_write, after_create, run_write_probe, write, read_back, mismatch,
}

module _ {Disk : Type 0} (fs : FileSystem Disk) (content : Disk → Text → Option Text) where
  -- What is documented of the calls: a file that was removed is gone, a removal or a creation that
  -- fails leaves what the path holds, and no call touches another path.
  pub record IsFileSystem : Type 0 where
    pub removed :
        (p : Text) (d : Disk)
        → (fs.remove_file p d).0 ≡ true
        → content (fs.remove_file p d).1 p ≡ none
    pub not_removed :
        (p : Text) (d : Disk)
        → (fs.remove_file p d).0 ≡ false
        → content (fs.remove_file p d).1 p ≡ content d p
    pub not_created :
        (p : Text) (d : Disk)
        → (fs.create_new p d).0 ≡ false
        → content (fs.create_new p d).1 p ≡ content d p
    pub remove_other :
        (p q : Text) (d : Disk) → q ≢ p → content (fs.remove_file p d).1 q ≡ content d q
    pub create_other :
        (p q : Text) (d : Disk) → q ≢ p → content (fs.create_new p d).1 q ≡ content d q
    pub write_other :
        (p q t : Text) (d : Disk) → q ≢ p → content (fs.write_all p t d).1 q ≡ content d q

  -- The path holds nothing, or what it held when a removal of it failed.
  abbrev pub IsCleaned : Text → Disk → Type 0
  IsCleaned p d' =
      (content d' p ≡ none)
      ⊎ ((d : Disk) × ((fs.remove_file p d).0 ≡ false) × (content d' p ≡ content d p))

  -- After a probe: other paths are as before, the file is cleaned up, and it is gone if the log is that of a success.
  abbrev pub EndsWell : Text → Disk → List LogLine × Disk → Type 0
  EndsWell p d r =
      ((q : Text) → q ≢ p → content r.1 q ≡ content d q)
      × IsCleaned p r.1
      × (r.0 ≡ probe_succeeded ∷ [] → content r.1 p ≡ none)

  module _ (laws : IsFileSystem) where
    remove-IsCleaned : (p : Text) (d : Disk) → IsCleaned p (fs.remove_file p d).1
    remove-IsCleaned p d = elim (Bool-cases (fs.remove_file p d).0) [
      | inl gone ↦ inl (laws.removed p d gone)
      | inr kept ↦ inr (d, kept, laws.not_removed p d kept)
    ]

    -- The file of the probe is at `p`, and `d0` is the disk at its start.
    module _ (p : Text) (d0 : Disk) where
      abbrev Same : Disk → Type 0
      Same d = (q : Text) → q ≢ p → content d q ≡ content d0 q

      give_up-EndsWell : (phase : Phase) (d : Disk) → Same d → EndsWell p d0 (give_up fs phase p d)
      unfolding give_up
      give_up-EndsWell phase d same = (
        λ q other. laws.remove_other p q d other ∙ same q other,
        remove-IsCleaned p d,
        λ log. cc log,
      )

      unlink_probe-EndsWell :
          (r : Bool × Disk)
          → Same r.1
          → IsCleaned p r.1
          → (r.0 ≡ true → content r.1 p ≡ none)
          → EndsWell p d0 (unlink_probe fs r)
      unfolding unlink_probe
      unlink_probe-EndsWell (true, d) same cleaned gone = (same, cleaned, λ log. gone refl)
      unlink_probe-EndsWell (false, d) same cleaned gone = (same, cleaned, λ log. cc log)

      check_read-EndsWell :
          (bytes : Option Text) (d : Disk) → Same d → EndsWell p d0 (check_read fs p bytes d)
      unfolding check_read
      check_read-EndsWell none d same = give_up-EndsWell read_back d same
      check_read-EndsWell (some buf) d same = elim (Bool-cases (text_eq buf probe_data)) [
        | inl equal ↦ rw equal (
            unlink_probe-EndsWell (fs.remove_file p d)
              (λ q other. laws.remove_other p q d other ∙ same q other) (remove-IsCleaned p d)
              (laws.removed p d))
        | inr differs ↦ rw differs (give_up-EndsWell mismatch d same)
      ]

      after_write-EndsWell : (r : Bool × Disk) → Same r.1 → EndsWell p d0 (after_write fs p r)
      unfolding after_write
      after_write-EndsWell (false, d) same = give_up-EndsWell write d same
      after_write-EndsWell (true, d) same = check_read-EndsWell (fs.read p d) d same

      after_create-EndsWell :
          (r : Bool × Disk)
          → Same r.1
          → (r.0 ≡ false → IsCleaned p r.1)
          → EndsWell p d0 (after_create fs p r)
      unfolding after_create
      after_create-EndsWell (false, d) same cleaned = (same, cleaned refl, λ log. cc log)
      after_create-EndsWell (true, d) same cleaned =
          after_write-EndsWell (fs.write_all p probe_data d)
            λ q other. laws.write_other p q probe_data d other ∙ same q other

    -- Another disk with the same at `p`, for a creation that failed.
    IsCleaned-same :
        (p : Text) (d e : Disk) → content e p ≡ content d p → IsCleaned p d → IsCleaned p e
    IsCleaned-same p d e same (inl gone) = inl (same ∙ gone)
    IsCleaned-same p d e same (inr (d', kept, eq)) = inr (d', kept, same ∙ eq)

    -- Whatever fails, the write probe leaves every path but its own as it was. Its own file is gone, or is what it
    -- was when an attempt to remove it failed, and it is gone if the probe logs nothing but its success. The file
    -- system is assumed to work as documented: a file that was removed is gone, a removal or a creation that
    -- fails changes nothing at its path, and no call touches another path.
    pub run_write_probe-EndsWell :
        (dir : Text) (d : Disk) → EndsWell (join dir probe_name) d (run_write_probe fs dir d)
    unfolding run_write_probe
    run_write_probe-EndsWell dir d =
        let p = join dir probe_name in
        let stale = (fs.remove_file p d).1 in
        after_create-EndsWell p d (fs.create_new p stale)
          (λ q other. laws.create_other p q stale other ∙ laws.remove_other p q d other)
          λ failed.
            IsCleaned-same p stale (fs.create_new p stale).1 (laws.not_created p stale failed)
              (remove-IsCleaned p d)
