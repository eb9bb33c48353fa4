-- ===== src/CacheGc.antt =====
-- src/embedder/trt_cache_gc.rs and src/embedder/sm_detect.rs: the engine plans of other GPUs are
-- deleted from the cache directory, with the files that belong to them.
pub mod Tags
pub mod Left
pub mod Sweep
pub mod Deletes
mod Tests
use bge_m3_embedding_server.Prelude.{
  ℕ, ◌+◌, ◌%◌, ◌^◌, Bool, true, false, not, ◌&&◌, Option, none, some, List, [], ◌∷◌, ◌++◌,
  if◌then◌else◌, is_empty, Text, codes, text_eq, strip_suffix, rfind_tail, split_once, trim, split,
  all_digits, min,
}
use bge_m3_embedding_server.Embed.Types.{saturating_add_u64}

-- What `nvidia-smi` does: it does not run, it fails, it writes something that is not UTF-8, or a
-- text.
pub data SmiOutput : Type 0 where
  not_run failed not_utf8 : SmiOutput
  wrote : Text → SmiOutput

-- `stdout.lines().find(…)`, trimmed. A line may keep its `\r`, which is trimmed too.
unfoldable pub first_line : List Text → Option Text
first_line [] = none
first_line (line ∷ lines) =
    let rest = first_line lines in if is_empty (trim line) then rest else some (trim line)

unfoldable pub capability_tag : Text → Text → Option Text
capability_tag major minor =
    if is_empty major
    then none
    else if is_empty minor
    then none
    else if all_digits major && all_digits minor
    then some (codes "sm" ++ (major ++ minor))
    else none

unfoldable pub parse_compute_capability : Text → Option Text
unfolding first_line capability_tag
parse_compute_capability stdout = elim (first_line (split b'\n' stdout)) [
  | none ↦ none
  | some line ↦ elim (split_once b'.' line) [ none ↦ none | some r ↦ capability_tag r.0 r.1 ]
]

unfoldable pub detect_sm_for_device : SmiOutput → Option Text
unfolding parse_compute_capability
detect_sm_for_device not_run = none
detect_sm_for_device failed = none
detect_sm_for_device not_utf8 = none
detect_sm_for_device (wrote stdout) = parse_compute_capability stdout

-- `after_underscore`, which begins with `sm`, is a tag if digits follow, and nothing else.
unfoldable pub tag_of : Text → Option Text
tag_of (s ∷ m ∷ d ∷ digits) = if all_digits (d ∷ digits) then some (s ∷ m ∷ d ∷ digits) else none
tag_of _ = none

unfoldable pub extract_sm_tag : Text → Option Text
unfolding tag_of
extract_sm_tag stem = elim (rfind_tail (codes "_sm") stem) [
  | some (underscore ∷ after_underscore) ↦ tag_of after_underscore
  | _ ↦ none
]

-- A file or directory of the cache directory: `metadata` may not tell its length, and it may refuse
-- to be removed.
pub record DirEntry : Type 0 where
  pub name : Text
  pub is_file : Bool
  pub len : Option ℕ
  pub removable : Bool

unfoldable pub has_text : List Text → Text → Bool
has_text [] t = false
has_text (s ∷ ss) t = if text_eq s t then true else has_text ss t

pub record GcStats : Type 0 where
  pub plans_deleted : ℕ
  pub bytes_freed : ℕ
  pub other_sms_observed : List Text

unfoldable pub gc_stats_default : GcStats
gc_stats_default = record { plans_deleted = 0; bytes_freed = 0; other_sms_observed = [] }

-- The stem and the tag of a plan of another GPU.
unfoldable pub stale_plan : Text → Text → Option (Text × Text)
unfolding extract_sm_tag
stale_plan current_sm name = elim (strip_suffix (codes ".engine") name) [
  | none ↦ none
  | some stem ↦ elim (extract_sm_tag stem) [
    | none ↦ none
    | some plan_sm ↦ if text_eq plan_sm current_sm then none else some (stem, plan_sm)
  ]
]

unfoldable pub bytes_of : DirEntry → ℕ
bytes_of e = elim e.len [ none ↦ 0 | some n ↦ n ]

unfoldable pub count_plan : DirEntry → Text → GcStats → GcStats
unfolding bytes_of has_text
count_plan e plan_sm stats = record {
  plans_deleted = (stats.plans_deleted + 1) % 2 ^ 64;
  bytes_freed = saturating_add_u64 stats.bytes_freed (bytes_of e);
  other_sms_observed =
      if has_text stats.other_sms_observed plan_sm
      then stats.other_sms_observed
      else stats.other_sms_observed ++ plan_sm ∷ [];
}

-- The statistics, the prefixes of the plans that were deleted, and what is left in the directory.
pub record Swept : Type 0 where
  pub stats : GcStats
  pub deletions : List Text
  pub left : List DirEntry

abbrev pub keep : DirEntry → Swept → Swept
keep e swept = record swept { left = e ∷ swept.left }

unfoldable pub plan_to_delete : Text → DirEntry → Option (Text × Text)
unfolding stale_plan
plan_to_delete current_sm e = if e.is_file then stale_plan current_sm e.name else none

unfoldable pub sweep_plans : Text → List DirEntry → GcStats → Swept
unfolding plan_to_delete count_plan
sweep_plans current_sm [] stats = record { stats = stats; deletions = []; left = [] }
sweep_plans current_sm (e ∷ es) stats =
    let kept = keep e (sweep_plans current_sm es stats) in
    elim (plan_to_delete current_sm e) [
      | none ↦ kept
      | some (stem, plan_sm) ↦
          let gone = sweep_plans current_sm es (count_plan e plan_sm stats) in
          if e.removable then record gone { deletions = stem ∷ gone.deletions } else kept
    ]

-- The stem of the plan that a sidecar belongs to: one of `ENGINE_SIDE_SUFFIXES`, and then the
-- extension of the plan, are taken off.
unfoldable pub sidecar_prefix : Text → Option Text
sidecar_prefix name = elim (strip_suffix (codes ".profile") name) [
  | some prefix_with_engine ↦ strip_suffix (codes ".engine") prefix_with_engine
  | none ↦ elim (strip_suffix (codes ".timing_cache") name) [
    | some prefix_with_engine ↦ strip_suffix (codes ".engine") prefix_with_engine
    | none ↦ none
  ]
]

unfoldable pub is_stale_sidecar : List Text → DirEntry → Bool
unfolding sidecar_prefix has_text
is_stale_sidecar deletions e = elim (if e.is_file then sidecar_prefix e.name else none) [
  | none ↦ false
  | some prefix ↦ has_text deletions prefix
]

unfoldable pub sweep_sidecars : List Text → List DirEntry → GcStats → GcStats × List DirEntry
unfolding is_stale_sidecar bytes_of
sweep_sidecars deletions [] stats = (stats, [])
sweep_sidecars deletions (e ∷ es) stats =
    let (stats_kept, left) = sweep_sidecars deletions es stats in
    let freed : GcStats = record stats {
      bytes_freed = saturating_add_u64 stats.bytes_freed (bytes_of e);
    } in
    let gone = sweep_sidecars deletions es freed in
    if is_stale_sidecar deletions e && e.removable then gone else (stats_kept, e ∷ left)

-- The directory if it can be read, and whether it can be read again.
unfoldable pub gc_stale_sm_plans : Option (List DirEntry) → Bool → Text → GcStats × List DirEntry
unfolding sweep_plans sweep_sidecars gc_stats_default
gc_stale_sm_plans none reopens current_sm = (gc_stats_default, [])
gc_stale_sm_plans (some entries) reopens current_sm =
    let swept = sweep_plans current_sm entries gc_stats_default in
    if is_empty swept.deletions
    then (swept.stats, swept.left)
    else if reopens
    then sweep_sidecars swept.deletions swept.left swept.stats
    else (swept.stats, swept.left)
