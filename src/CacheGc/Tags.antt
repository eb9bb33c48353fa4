-- ===== src/CacheGc/Tags.antt =====
-- src/embedder/trt_cache_gc.rs and src/embedder/sm_detect.rs: the tag of a GPU is written and read
-- alike.
use bge_m3_embedding_server.Prelude.{
  ℕ, ◌≡◌, refl, sym, inl, inr, true, ◌&&◌, none, some, [], ◌∷◌, ◌++◌, Text, codes, rfind_tail,
  split_once, split, all_digits, Bool-cases, Option-cases, starts_with, strip_prefix,
  rfind_tail-digits, rfind_tail-append, all_digits-append, and_both,
}
use mathlib.Core.Option.{some_inj}
use bge_m3_embedding_server.CacheGc.{
  first_line, capability_tag, parse_compute_capability, tag_of, extract_sm_tag,
}

rfind_tail-tag :
    (t : Text)
    → rfind_tail (codes "_sm") t ≡ none
    → rfind_tail (codes "_sm") (codes "_sm" ++ t) ≡ some (codes "_sm" ++ t)
unfolding rfind_tail starts_with strip_prefix
rfind_tail-tag t h = rw h refl

-- The tag that stands at the end of a stem is the one that is read.
pub extract_sm_tag-append :
    (stem digits : Text) (d : ℕ)
    → all_digits (d ∷ digits) ≡ true
    → extract_sm_tag (stem ++ (codes "_sm" ++ d ∷ digits)) ≡ some (codes "sm" ++ d ∷ digits)
unfolding extract_sm_tag tag_of
extract_sm_tag-append stem digits d h =
    let tail =
      rfind_tail-tag (d ∷ digits) (rfind_tail-digits b'_' (codes "sm") (d ∷ digits) refl h) in
    rw (rfind_tail-append (codes "_sm") stem _ _ tail, extract_sm_tag, h) refl

abbrev IsTag : Text → Type 0
IsTag tag =
    (d : ℕ) × (digits : Text) × (tag ≡ codes "sm" ++ d ∷ digits) × (all_digits (d ∷ digits) ≡ true)

capability_tag-IsTag : (major minor tag : Text) → capability_tag major minor ≡ some tag → IsTag tag
unfolding capability_tag
capability_tag-IsTag [] minor tag h = cc h
capability_tag-IsTag (c ∷ major) [] tag h = cc h
capability_tag-IsTag (c ∷ major) (d ∷ minor) tag h =
    elim (Bool-cases (all_digits (c ∷ major) && all_digits (d ∷ minor))) [
      | inl e ↦
          let (digits, more) = and_both (all_digits (c ∷ major)) _ e in
          (
            c,
            major ++ d ∷ minor,
            sym (some_inj.0 (rw (e, capability_tag) at h)),
            all_digits-append (c ∷ major) (d ∷ minor) digits more,
          )
      | inr e ↦ cc (rw (e, capability_tag) at h)
    ]

parse_compute_capability-IsTag :
    (stdout tag : Text) → parse_compute_capability stdout ≡ some tag → IsTag tag
unfolding parse_compute_capability
parse_compute_capability-IsTag stdout tag h =
    elim (Option-cases (first_line (split b'\n' stdout))) [
      | inl e ↦ cc (rw (e, parse_compute_capability) at h)
      | inr e ↦ elim (Option-cases (split_once b'.' e.0)) [
        | inl f ↦ cc (rw (e.1, f, parse_compute_capability) at h)
        | inr f ↦
            capability_tag-IsTag f.0.0 f.0.1 tag (rw (e.1, f.1, parse_compute_capability) at h)
      ]
    ]

-- If the compute capability that `nvidia-smi` writes is understood, the tag that it gives is the one
-- that is read from any stem of a plan that ends in it.
pub extract_sm_tag-parse_compute_capability :
    (stdout tag stem : Text)
    → parse_compute_capability stdout ≡ some tag
    → extract_sm_tag (stem ++ b'_' ∷ tag) ≡ some tag
extract_sm_tag-parse_compute_capability stdout tag stem h =
    let (d, digits, e, k) = parse_compute_capability-IsTag stdout tag h in
    rw e (extract_sm_tag-append stem digits d k)
