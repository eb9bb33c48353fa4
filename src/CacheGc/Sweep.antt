-- ===== src/CacheGc/Sweep.antt =====
-- src/embedder/trt_cache_gc.rs: a collection leaves the files of the current GPU.
use bge_m3_embedding_server.Prelude.{
  ◌^◌, ◌<◌, ◌≡◌, refl, sym, ap, ◌∙◌, inl, inr, Bool, true, false, not, none, some, List, [], ◌∷◌,
  ◌++◌, length, length-append, Mem, Text, codes, text_eq, strip_suffix, Bool-cases, Option-cases,
  arith, text_eq_refl, strip_suffix-append, strip_suffix_sound,
}
use mathlib.Core.List.{tail-eq_of_cons-eq, append_assoc, mem-cons, Mem-prop}
use mathlib.Core.Logic.Or
use bge_m3_embedding_server.CacheGc.{
  DirEntry, stale_plan, plan_to_delete, sidecar_prefix, is_stale_sidecar, gc_stale_sm_plans,
  parse_compute_capability, extract_sm_tag,
}
use bge_m3_embedding_server.CacheGc.Tags.{extract_sm_tag-parse_compute_capability}
use bge_m3_embedding_server.CacheGc.Left.{
  retain, deletes_plan, deleted_stems, removes, gc_stale_sm_plans-left,
}

append-same_length : (p q s t : Text) → p ++ s ≡ q ++ t → length s ≡ length t → s ≡ t
append-same_length [] [] s t h e = h
append-same_length [] (c ∷ q) s t h e = absurd (omega (arith, ap length h, length-append q t))
append-same_length (c ∷ p) [] s t h e = absurd (omega (arith, ap length h, length-append p s))
append-same_length (c ∷ p) (d ∷ q) s t h e = append-same_length p q s t (tail-eq_of_cons-eq h) e

strip_suffix-other :
    (begin s t stem : Text)
    → length s ≡ length t
    → text_eq t s ≡ false
    → strip_suffix (begin ++ s) (stem ++ t) ≡ none
strip_suffix-other begin s t stem e n =
    elim (Option-cases (strip_suffix (begin ++ s) (stem ++ t))) [
      | inl f ↦ f
      | inr f ↦
          let whole : stem ++ t ≡ (f.0 ++ begin) ++ s =
            strip_suffix_sound (begin ++ s) (stem ++ t) f.0 f.1 ∙ sym (append_assoc f.0 begin s) in
          cc (append-same_length stem (f.0 ++ begin) t s whole (sym e), text_eq_refl t, n)
    ]

-- No plan has the name of a sidecar.
sidecar_prefix-plan : (stem : Text) → sidecar_prefix (stem ++ codes ".engine") ≡ none
unfolding sidecar_prefix
sidecar_prefix-plan stem =
    rw
      (
        strip_suffix-other (codes ".") (codes "profile") (codes ".engine") stem refl refl,
        strip_suffix-other (codes ".timin") (codes "g_cache") (codes ".engine") stem refl refl,
        sidecar_prefix,
      )
      refl

stale_plan-current :
    (stem tag : Text)
    → extract_sm_tag stem ≡ some tag
    → stale_plan tag (stem ++ codes ".engine") ≡ none
unfolding stale_plan
stale_plan-current stem tag h =
    rw (strip_suffix-append stem (codes ".engine"), stale_plan, h, text_eq_refl tag) refl

plan_to_delete-current :
    (tag stem : Text) (e : DirEntry)
    → extract_sm_tag stem ≡ some tag
    → e.name ≡ stem ++ codes ".engine"
    → plan_to_delete tag e ≡ none
unfolding plan_to_delete
plan_to_delete-current tag stem e h k = elim (Bool-cases e.is_file) [
  | inl f ↦ simp (f, k, plan_to_delete) (stale_plan-current stem tag h)
  | inr f ↦ simp (f, plan_to_delete) refl
]

is_stale_sidecar-plan :
    (deletions : List Text) (stem : Text) (e : DirEntry)
    → e.name ≡ stem ++ codes ".engine"
    → is_stale_sidecar deletions e ≡ false
unfolding is_stale_sidecar
is_stale_sidecar-plan deletions stem e k = elim (Bool-cases e.is_file) [
  | inl f ↦ simp (f, k, is_stale_sidecar, sidecar_prefix-plan stem) refl
  | inr f ↦ simp (f, is_stale_sidecar) refl
]

removes-current :
    (tag stem : Text) (dir : List DirEntry) (e : DirEntry)
    → extract_sm_tag stem ≡ some tag
    → e.name ≡ stem ++ codes ".engine"
    → removes tag dir e ≡ false
removes-current tag stem dir e h k =
    rw
      (
        deletes_plan,
        plan_to_delete-current tag stem e h k,
        is_stale_sidecar-plan (deleted_stems tag dir) stem e k,
      )
      refl

mem-retain :
    (test : DirEntry → Bool) (e : DirEntry) (es : List DirEntry)
    → test e ≡ true
    → Mem e es
    → Mem e (retain test es)
mem-retain test e [] h m = m
mem-retain test e (x ∷ es) h m = elim (Bool-cases (test x)) [
  | inl f ↦ rw f (
      Or.elim Mem-prop (mem-cons.0 m) (λ k. mem-cons.1 (Or.inl k))
        (λ k. mem-cons.1 (Or.inr (mem-retain test e es h k))))
  | inr f ↦
      rw f (Or.elim Mem-prop (mem-cons.0 m) (λ k. cc (ap test k, h, f)) (mem-retain test e es h))
]

-- If `nvidia-smi` writes a compute capability that gives a tag, a collection for that tag leaves
-- every plan whose name ends in it, in a directory of fewer than 2^64 files.
pub gc_stale_sm_plans-spares :
    (stdout tag stem : Text) (dir : List DirEntry) (e : DirEntry)
    → length dir < 2 ^ 64
    → parse_compute_capability stdout ≡ some tag
    → e.name ≡ (stem ++ b'_' ∷ tag) ++ codes ".engine"
    → Mem e dir
    → Mem e (gc_stale_sm_plans (some dir) true tag).1
gc_stale_sm_plans-spares stdout tag stem dir e b h k m =
    let read = extract_sm_tag-parse_compute_capability stdout tag stem h in
    let kept = removes-current tag (stem ++ b'_' ∷ tag) dir e read k in
    rw ((gc_stale_sm_plans-left dir tag b).0) (mem-retain _ e dir (ap not kept) m)
