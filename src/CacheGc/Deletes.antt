-- ===== src/CacheGc/Deletes.antt =====
-- src/embedder/trt_cache_gc.rs: a collection deletes the plans of other GPUs, and their sidecars.
use bge_m3_embedding_server.Prelude.{
  ◌^◌, ◌<◌, ◌≡◌, ◌≢◌, refl, sym, ap, ◌∙◌, inl, inr, Bool, true, false, not, some, List, [], ◌∷◌,
  ◌++◌, length, Mem, Text, codes, text_eq, all_digits, Bool-cases, text_eq→≡, strip_suffix-append,
  ℕ,
}
use mathlib.Core.List.{mem-cons, not-mem-nil}
use mathlib.Core.Logic.Or
use bge_m3_embedding_server.CacheGc.{DirEntry, stale_plan, plan_to_delete, gc_stale_sm_plans}
use bge_m3_embedding_server.CacheGc.Tags.{extract_sm_tag-append}
use bge_m3_embedding_server.CacheGc.Left.{retain, deletes_plan, removes, gc_stale_sm_plans-left}

-- The name of a plan, without its extension.
abbrev pub plan_stem : Text → ℕ → Text → Text
plan_stem begin d digits = begin ++ (codes "_sm" ++ d ∷ digits)

-- A file that is a plan of the tag that its digits give, and that can be removed.
abbrev pub IsPlan : Text → ℕ → Text → DirEntry → Type 0
IsPlan begin d digits e =
    (all_digits (d ∷ digits) ≡ true)
    × (e.name ≡ plan_stem begin d digits ++ codes ".engine")
    × (e.is_file ≡ true)
    × (e.removable ≡ true)

false_not_true : false ≢ true
false_not_true h = cc h

text_eq-differ : (s t : Text) → s ≢ t → text_eq s t ≡ false
text_eq-differ s t h = elim (Bool-cases (text_eq s t)) [
  | inl same ↦ absurd (h (text_eq→≡ s t same))
  | inr other ↦ other
]

not-mem-retain :
    (test : DirEntry → Bool) (e : DirEntry) (es : List DirEntry)
    → test e ≡ false
    → ¬ Mem e (retain test es)
not-mem-retain test e [] h m = not-mem-nil m
not-mem-retain test e (x ∷ es) h m = elim (Bool-cases (test x)) [
  | inl f ↦
      Or.elim (λ a b i. absurd {A = a ≡ b} a i) (mem-cons.0 (rw f at m))
        (λ k. false_not_true (sym h ∙ ap test k ∙ f)) (not-mem-retain test e es h)
  | inr f ↦ not-mem-retain test e es h (rw f at m)
]

stale_plan-foreign :
    (current_sm begin digits : Text) (d : ℕ)
    → (codes "sm" ++ d ∷ digits) ≢ current_sm
    → all_digits (d ∷ digits) ≡ true
    → stale_plan current_sm (plan_stem begin d digits ++ codes ".engine")
      ≡ some (plan_stem begin d digits, codes "sm" ++ d ∷ digits)
unfolding stale_plan
stale_plan-foreign current_sm begin digits d foreign numbers =
    rw
      (
        strip_suffix-append (plan_stem begin d digits) (codes ".engine"),
        stale_plan,
        extract_sm_tag-append begin digits d numbers,
        text_eq-differ (codes "sm" ++ d ∷ digits) current_sm foreign,
      )
      refl

plan_to_delete-foreign :
    (current_sm begin digits : Text) (d : ℕ) (e : DirEntry)
    → (codes "sm" ++ d ∷ digits) ≢ current_sm
    → IsPlan begin d digits e
    → plan_to_delete current_sm e ≡ some (plan_stem begin d digits, codes "sm" ++ d ∷ digits)
unfolding plan_to_delete
plan_to_delete-foreign current_sm begin digits d e foreign (numbers, named, file, removable) =
    let that = stale_plan-foreign current_sm begin digits d foreign numbers in
    rw (plan_to_delete, file, named) that

removes-foreign :
    (current_sm begin digits : Text) (d : ℕ) (dir : List DirEntry) (e : DirEntry)
    → (codes "sm" ++ d ∷ digits) ≢ current_sm
    → IsPlan begin d digits e
    → removes current_sm dir e ≡ true
removes-foreign current_sm begin digits d dir e foreign (numbers, named, file, removable) =
    let found =
      plan_to_delete-foreign current_sm begin digits d e foreign
        (numbers, named, file, removable) in
    rw (removes, deletes_plan, found, removable) refl

-- A collection deletes every file that is a plan of another tag than the current one and can be
-- removed, in a directory of fewer than 2^64 files: the file's name ends in `_sm`, one digit at
-- least, and `.engine`, and `sm` with these digits is not the current tag.
pub gc_stale_sm_plans-deletes :
    (current_sm begin digits : Text) (d : ℕ) (dir : List DirEntry) (e : DirEntry)
    → length dir < 2 ^ 64
    → (codes "sm" ++ d ∷ digits) ≢ current_sm
    → IsPlan begin d digits e
    → ¬ Mem e (gc_stale_sm_plans (some dir) true current_sm).1
gc_stale_sm_plans-deletes current_sm begin digits d dir e b foreign plan m =
    not-mem-retain (λ x. not (removes current_sm dir x)) e dir
      (ap not (removes-foreign current_sm begin digits d dir e foreign plan))
      (rw ((gc_stale_sm_plans-left dir current_sm b).0) at m)
