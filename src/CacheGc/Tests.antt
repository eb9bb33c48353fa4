-- ===== src/CacheGc/Tests.antt =====
-- A collection in a directory with a plan of the current GPU, and one of another with its sidecar.
use bge_m3_embedding_server.Prelude.{
  ◌≡◌, refl, ap, text_eq, true, some, List, [], ◌∷◌, arith, Mem, Text, codes, strip_suffix,
  rfind_tail, starts_with, strip_prefix, split, split_parts, split_once, trim, trim_start, trim_end,
  is_whitespace,
}
use mathlib.Core.List.{mem-cons_self}
use bge_m3_embedding_server.CacheGc.{
  DirEntry, gc_stale_sm_plans, extract_sm_tag, parse_compute_capability, tag_of, first_line,
  capability_tag, sweep_plans, sweep_sidecars, plan_to_delete, stale_plan, is_stale_sidecar,
  sidecar_prefix, has_text, count_plan, gc_stats_default, bytes_of,
}
use bge_m3_embedding_server.CacheGc.Deletes.{gc_stale_sm_plans-deletes}
use bge_m3_embedding_server.CacheGc.Sweep.{gc_stale_sm_plans-spares}

abbrev file : Text → DirEntry
file name = record { name = name; is_file = true; len = some 10; removable = true }

abbrev current : DirEntry
current = file (codes "a_sm89.engine")

abbrev others : List DirEntry
others =
    file (codes "a_sm120.engine")
    ∷ file (codes "a_sm120.engine.profile")
    ∷ file (codes "notes.txt")
    ∷ []

parses : parse_compute_capability (codes " 8.9\n") ≡ some (codes "sm89")
unfolding parse_compute_capability first_line capability_tag split split_parts split_once trim
    trim_start trim_end is_whitespace
parses = refl

collects :
    (gc_stale_sm_plans (some (current ∷ others)) true (codes "sm89")).1
    ≡ current ∷ file (codes "notes.txt") ∷ []
unfolding gc_stale_sm_plans sweep_plans sweep_sidecars plan_to_delete stale_plan is_stale_sidecar
    sidecar_prefix has_text count_plan gc_stats_default extract_sm_tag tag_of strip_suffix
    rfind_tail starts_with strip_prefix bytes_of
collects = refl

gc_stale_sm_plans-deletes_example :
    ¬ Mem
      (file (codes "a_sm120.engine"))
      (gc_stale_sm_plans (some (current ∷ others)) true (codes "sm89")).1
gc_stale_sm_plans-deletes_example =
    gc_stale_sm_plans-deletes (codes "sm89") (codes "a") (codes "20") b'1' (current ∷ others)
      (file (codes "a_sm120.engine")) (omega arith) (λ same. cc (ap (text_eq (codes "sm120")) same))
      (refl, refl, refl, refl)

gc_stale_sm_plans-spares_example :
    Mem current (gc_stale_sm_plans (some (current ∷ others)) true (codes "sm89")).1
gc_stale_sm_plans-spares_example =
    gc_stale_sm_plans-spares (codes " 8.9\n") (codes "sm89") (codes "a") (current ∷ others) current
      (omega arith) parses refl mem-cons_self
