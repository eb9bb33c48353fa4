-- ===== src/Probe/Cache.antt =====
-- src/probe/cache.rs: the fitted coefficients are kept in a file, with the version, model, length and
-- architecture that they were measured with. JSON is a third-party format, whose writer and reader
-- are parameters.
use bge_m3_embedding_server.Prelude.{
  ℕ, ◌≡◌, ◌≢◌, refl, sym, ap, ◌∙◌, text_eq_refl, text_eq→≡, ==_iff, inl, inr, Bool, true, false,
  not, ◌&&◌, ◌||◌, Option, none, some, ◌==◌, if◌then◌else◌, Text, text_eq, Bool-cases, Option-cases,
  ◌⊎◌,
}
use bge_m3_embedding_server.Prelude.Floats.{F64, FitOps}

-- What the coefficients depend on.
pub record Fingerprint : Type 0 where
  pub server_version : Text
  pub model : Text
  pub max_seq : ℕ
  pub arch : Text

pub record ProbeCache (F : Type 0) : Type 0 where
  pub schema_version : ℕ
  pub fingerprint : Fingerprint
  pub fitted_at_unix : ℕ
  pub a : F
  pub b : F

-- `serde_json`
pub record Json (F : Type 0) : Type 0 where
  pub to_string_pretty : ProbeCache F → Option Text
  pub from_str : Text → Option (ProbeCache F)

-- The file of the coefficients, if it can be read, and the temporary one.
pub record CacheDir : Type 0 where
  pub final_file : Option Text
  pub tmp_file : Option Text

-- Whether the steps of a save succeed. A write that fails may leave a part of the text.
pub record SaveOutcome : Type 0 where
  pub written : Bool
  pub partial : Option Text
  pub renamed : Bool
  pub removed : Bool

abbrev pub same_fingerprint : Fingerprint → Fingerprint → Bool
same_fingerprint x y =
    text_eq x.server_version y.server_version
    && (text_eq x.model y.model && ((x.max_seq == y.max_seq) && text_eq x.arch y.arch))

same_fingerprint_refl : (x : Fingerprint) → same_fingerprint x x ≡ true
same_fingerprint_refl x =
    rw
      (
        text_eq_refl x.server_version,
        text_eq_refl x.model,
        (==_iff x.max_seq x.max_seq).1 refl,
        text_eq_refl x.arch,
      )
      refl

and_split : (a b : Bool) → (a && b) ≡ true → (a ≡ true) × (b ≡ true)
and_split true b h = (refl, h)
and_split false b h = cc h

-- Two fingerprints that compare as equal are the same.
same_fingerprint_sound : (x y : Fingerprint) → same_fingerprint x y ≡ true → x ≡ y
same_fingerprint_sound x y h =
    let (version, rest) = and_split (text_eq x.server_version y.server_version) _ h in
    let (model, others) = and_split (text_eq x.model y.model) _ rest in
    let (len, arch) = and_split (x.max_seq == y.max_seq) _ others in
    let same_arch = text_eq→≡ x.arch y.arch arch in
    let same_len = (==_iff x.max_seq y.max_seq).0 len in
    let same_model = text_eq→≡ x.model y.model model in
    let same_version = text_eq→≡ x.server_version y.server_version version in
    λ i. record {
      server_version = same_version i;
      model = same_model i;
      max_seq = same_len i;
      arch = same_arch i;
    }

module _ (f : F64) (ops : FitOps f) (json : Json f.Carrier) where
  open f use {Carrier, of_ℕ}
  open ops use {lt, eq}

  -- `x <= 0.0`
  abbrev is_non_positive : Carrier → Bool
  is_non_positive x = lt x (of_ℕ 0) || eq x (of_ℕ 0)

  unfoldable pub accept : Fingerprint → ProbeCache Carrier → Option (Carrier × Carrier)
  accept current cache =
      if not (cache.schema_version == 1) || not (same_fingerprint cache.fingerprint current)
      then none
      else if is_non_positive cache.a || is_non_positive cache.b
      then none
      else some (cache.a, cache.b)

  unfoldable pub try_load_probe_cache : CacheDir → Fingerprint → Option (Carrier × Carrier)
  unfolding accept
  try_load_probe_cache dir current = elim dir.final_file [
    | none ↦ none
    | some raw ↦ elim (json.from_str raw) [ none ↦ none | some cache ↦ accept current cache ]
  ]

  unfoldable pub new_cache : Fingerprint → ℕ → Carrier → Carrier → ProbeCache Carrier
  new_cache current now a b = record {
    schema_version = 1;
    fingerprint = current;
    fitted_at_unix = now;
    a = a;
    b = b;
  }

  -- Write the temporary file, and rename it.
  unfoldable pub store : SaveOutcome → Text → CacheDir → CacheDir
  store o text dir =
      if not o.written
      then record dir { tmp_file = o.partial }
      else if o.renamed
      then record { final_file = some text; tmp_file = none }
      else record dir { tmp_file = if o.removed then none else some text }

  unfoldable pub save_probe_cache :
      SaveOutcome → Fingerprint → ℕ → Carrier → Carrier → CacheDir → CacheDir
  unfolding store new_cache
  save_probe_cache o current now a b dir =
      elim (json.to_string_pretty (new_cache current now a b)) [
        | none ↦ dir
        | some text ↦ store o text dir
      ]

  -- Whatever step of a save fails, the file of the coefficients is as it was, or holds all of the
  -- text of the new ones.
  pub save_probe_cache-atomic :
      (o : SaveOutcome) (current : Fingerprint) (now : ℕ) (a b : Carrier) (dir : CacheDir)
      → ((save_probe_cache o current now a b dir).final_file ≡ dir.final_file)
        ⊎ ((save_probe_cache o current now a b dir).final_file
            ≡ json.to_string_pretty (new_cache current now a b))
  unfolding save_probe_cache store
  save_probe_cache-atomic o current now a b dir =
      elim (Option-cases (json.to_string_pretty (new_cache current now a b))) [
        | inl e ↦ inl (rw (e, save_probe_cache) refl)
        | inr e ↦ elim (Bool-cases o.written) [
          | inl w ↦ elim (Bool-cases o.renamed) [
            | inl r ↦ inr (simp (e.1, w, r, save_probe_cache) refl)
            | inr r ↦ inl (simp (e.1, w, r, save_probe_cache) refl)
          ]
          | inr w ↦ inl (simp (e.1, w, save_probe_cache) refl)
        ]
      ]

  -- If a save succeeds, and its text is read back with the same fields and with coefficients that
  -- are positive, then a later start whose version, model, length and architecture are all the same loads
  -- those coefficients, and a later start for which one of the four differs loads none.
  pub try_load_probe_cache-save_probe_cache :
      (o : SaveOutcome) (current later : Fingerprint) (now : ℕ) (a b a' b' : Carrier)
      (dir : CacheDir) (text : Text)
      → o.written ≡ true
      → o.renamed ≡ true
      → json.to_string_pretty (new_cache current now a b) ≡ some text
      → json.from_str text ≡ some (new_cache current now a' b')
      → is_non_positive a' ≡ false
      → is_non_positive b' ≡ false
      → ((later ≡ current)
          × (try_load_probe_cache (save_probe_cache o current now a b dir) later ≡ some (a', b')))
        ⊎ ((later ≢ current)
            × (try_load_probe_cache (save_probe_cache o current now a b dir) later ≡ none))
  unfolding save_probe_cache store try_load_probe_cache accept new_cache
  try_load_probe_cache-save_probe_cache o current later now a b a' b' dir text w r e e' p q =
      let saved : save_probe_cache o current now a b dir
          ≡ record { final_file = some text; tmp_file = none } =
        simp (e, w, r, save_probe_cache) refl in
      elim (Bool-cases (same_fingerprint current later)) [
        | inl s ↦ inl (
          sym (same_fingerprint_sound current later s),
          simp (saved, try_load_probe_cache, e', accept, s, p, q) refl,
        )
        | inr s ↦ inr (
          λ same.
              differ (sym s ∙ ap (same_fingerprint current) same ∙ same_fingerprint_refl current),
          simp (saved, try_load_probe_cache, e', accept, s) refl,
        )
      ]
    where
      differ : false ≢ true
      differ h = cc h
