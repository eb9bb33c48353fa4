-- ===== src/Scores/Pooled.antt =====
-- src/embedder/math.rs: the sparse weights of a text as a function from token ids to weights.
use bge_m3_embedding_server.Prelude.{
  ℕ, suc, ◌≤◌, ◌≡◌, refl, ap, sym, subst, ◌∙◌, inl, inr, Bool, true, false, ◌||◌, Option, none,
  some, List, [], ◌∷◌, map, Nodup, arith, ◌==◌, ==_iff, if◌then◌else◌, Bool-cases, length,
  get_elem?, elem, elem_of_mem, elem-perm, Ascending, At, At-head, At-tail, At-start,
}
use mathlib.Core.List.{Nodup-nil, Nodup-cons}
use mathlib.Core.List.Perm
use mathlib.Core.Option.{some_inj}
use bge_m3_embedding_server.AppError.{ok, expect, ◌>>=◌}
use bge_m3_embedding_server.Runtime.{Runtime}
use bge_m3_embedding_server.Scores.{
  is_special, upsert, pool_tokens, weight_of, weights_of, sparse_maxpool,
}

module _ (rt : Runtime) where
  open rt use {F32, max_f32, is_positive}

  -- The tokens that count, with their scores: not masked, not special, with a positive score.
  abbrev pub counted : List ℕ → List ℕ → List F32 → List (ℕ × F32)
  counted [] mask scores = []
  counted (id ∷ ids) [] scores = []
  counted (id ∷ ids) (m ∷ mask) [] = []
  counted (id ∷ ids) (m ∷ mask) (x ∷ scores) =
      let rest = counted ids mask scores in
      if m == 0 || is_special id then rest else if is_positive x then (id, x) ∷ rest else rest

  abbrev pub raise : Option F32 → F32 → Option F32
  raise none score = some score
  raise (some w) score = some (max_f32 w score)

  -- The weight of a token: the maximum of its scores, behind a weight that it has already.
  abbrev pub weight_from : Option F32 → ℕ → List (ℕ × F32) → Option F32
  weight_from w k [] = w
  weight_from w k ((id, score) ∷ rest) = weight_from (if id == k then raise w score else w) k rest

  -- The value beside a key.
  abbrev pub value_at : List ℕ → List F32 → ℕ → Option F32
  value_at [] vs k = none
  value_at (i ∷ is) [] k = none
  value_at (i ∷ is) (v ∷ vs) k = if i == k then some v else value_at is vs k

  abbrev find : List (ℕ × F32) → ℕ → Option F32
  find [] k = none
  find ((i, w) ∷ m) k = if i == k then some w else find m k

  abbrev keys : List (ℕ × F32) → List ℕ
  keys m = map (λ e. e.0) m

  find-upsert :
      (id : ℕ) (score : F32) (m : List (ℕ × F32)) (k : ℕ)
      → find (upsert rt id score m) k ≡ (if id == k then raise (find m k) score else find m k)
  unfolding upsert
  find-upsert id score [] k = ground arith
  find-upsert id score ((i, w) ∷ m) k = ground (arith, find-upsert id score m k)

  elem-keys-upsert :
      (id : ℕ) (score : F32) (m : List (ℕ × F32)) (k : ℕ)
      → elem k (keys (upsert rt id score m)) ≡ (id == k || elem k (keys m))
  unfolding upsert
  elem-keys-upsert id score [] k = refl
  elem-keys-upsert id score ((i, w) ∷ m) k = ground (arith, elem-keys-upsert id score m k)

  abbrev IsDistinct : List ℕ → Type 0
  IsDistinct [] = Unit
  IsDistinct (x ∷ xs) = (elem x xs ≡ false) × IsDistinct xs

  IsDistinct-Nodup : (xs : List ℕ) → IsDistinct xs → Nodup xs
  IsDistinct-Nodup [] d = Nodup-nil
  IsDistinct-Nodup (x ∷ xs) d =
      Nodup-cons.1 (λ m. cc (elem_of_mem x xs m, d.0), IsDistinct-Nodup xs d.1)

  upsert-IsDistinct :
      (id : ℕ) (score : F32) (m : List (ℕ × F32))
      → IsDistinct (keys m)
      → IsDistinct (keys (upsert rt id score m))
  unfolding upsert
  upsert-IsDistinct id score [] d = (refl, tt)
  upsert-IsDistinct id score ((i, w) ∷ m) d = elim (Bool-cases (i == id)) [
    | inl e ↦ rw (e, upsert) d
    | inr n ↦
        let other : (id == i) ≡ false = ground arith in
        rw (n, upsert)
          (elem-keys-upsert id score m i ∙ rw (other) d.0, upsert-IsDistinct id score m d.1)
  ]

  module _ (id : ℕ) (ids mask : List ℕ) (scores : List F32) (j : ℕ) (m : List (ℕ × F32)) (b : ℕ)
      (x : F32) (masked : get_elem? mask j ≡ some b) (scored : get_elem? scores j ≡ some x) where
    pool_tokens-skip :
        (b == 0 || is_special id) ≡ true
        → pool_tokens rt (id ∷ ids) mask scores j m ≡ pool_tokens rt ids mask scores (suc j) m
    unfolding pool_tokens
    pool_tokens-skip skip = rw (masked, pool_tokens, expect, ◌>>=◌) (rw skip refl)

    pool_tokens-score :
        (b == 0 || is_special id) ≡ false
        → pool_tokens rt (id ∷ ids) mask scores j m
          ≡ pool_tokens rt ids mask scores (suc j) (if is_positive x then upsert rt id x m else m)
    unfolding pool_tokens
    pool_tokens-score keep =
        rw (masked, pool_tokens, expect, ◌>>=◌) (rw keep (rw (scored, expect, ◌>>=◌) refl))

  -- The map that the loop builds holds, for each token, its weight.
  pool_tokens-counted :
      (ids mask : List ℕ) (scores : List F32) (mask' : List ℕ) (scores' : List F32) (j : ℕ)
      (m : List (ℕ × F32))
      → length ids ≤ length mask'
      → length ids ≤ length scores'
      → At mask j mask'
      → At scores j scores'
      → IsDistinct (keys m)
      → (m' : List (ℕ × F32)) × (pool_tokens rt ids mask scores j m ≡ ok m')
        × IsDistinct (keys m')
        × ((k : ℕ) → find m' k ≡ weight_from (find m k) k (counted ids mask' scores'))
  unfolding pool_tokens
  pool_tokens-counted [] mask scores mask' scores' j m lm ls at_mask at_score d =
      (m, refl, d, λ k. refl)
  pool_tokens-counted (id ∷ ids) mask scores [] scores' j m lm ls at_mask at_score d =
      absurd (omega arith)
  pool_tokens-counted (id ∷ ids) mask scores (b ∷ mask') [] j m lm ls at_mask at_score d =
      absurd (omega arith)
  pool_tokens-counted (id ∷ ids) mask scores (b ∷ mask') (x ∷ scores') j m lm ls at_mask at_score
        d =
      let masked : get_elem? mask j ≡ some b = At-head mask j b mask' at_mask in
      let scored : get_elem? scores j ≡ some x = At-head scores j x scores' at_score in
      let rest = λ (m0 : List (ℕ × F32)) (d0 : IsDistinct (keys m0)).
        pool_tokens-counted ids mask scores mask' scores' (suc j) m0 (omega arith) (omega arith)
          (At-tail mask j b mask' at_mask) (At-tail scores j x scores' at_score) d0 in
      elim (Bool-cases (b == 0 || is_special id)) [
        | inl skip ↦
            rw (pool_tokens-skip id ids mask scores j m b x masked scored skip, skip) (rest m d)
        | inr keep ↦
            let step = pool_tokens-score id ids mask scores j m b x masked scored keep in
            elim (Bool-cases (is_positive x)) [
              | inl positive ↦
                  let (m', run, distinct, weights) =
                    rest (upsert rt id x m) (upsert-IsDistinct id x m d) in
                  rw (step, keep, positive)
                    (
                      m',
                      run,
                      distinct,
                      λ k.
                          weights k
                          ∙ ap (λ w. weight_from w k (counted ids mask' scores'))
                              (find-upsert id x m k),
                    )
              | inr nothing ↦ rw (step, keep, nothing) (rest m d)
            ]
      ]

  find-elem :
      (m : List (ℕ × F32)) (k : ℕ) → elem k (keys m) ≡ true → (w : F32) × (find m k ≡ some w)
  find-elem [] k h = cc h
  find-elem ((i, w) ∷ m) k h = elim (Bool-cases (i == k)) [
    | inl e ↦ (w, rw e refl)
    | inr n ↦ let (v, found) = find-elem m k (rw n at h) in (v, rw n found)
  ]

  find-none : (m : List (ℕ × F32)) (k : ℕ) → elem k (keys m) ≡ false → find m k ≡ none
  find-none [] k h = refl
  find-none ((i, w) ∷ m) k h = elim (Bool-cases (i == k)) [
    | inl e ↦ cc (rw e at h)
    | inr n ↦ rw n (find-none m k (rw n at h))
  ]

  weight_of-find :
      (m : List (ℕ × F32)) (k : ℕ) (w : F32) → find m k ≡ some w → weight_of rt k m ≡ ok w
  unfolding weight_of
  weight_of-find [] k w h = cc h
  weight_of-find ((i, v) ∷ m) k w h = elim (Bool-cases (i == k)) [
    | inl e ↦ rw (e, weight_of) (let same : v ≡ w = some_inj.0 (rw e at h) in ap ok same)
    | inr n ↦ rw (n, weight_of) (weight_of-find m k w (rw n at h))
  ]

  -- The values beside the listed keys are those of the map.
  weights_of-found :
      (ks : List ℕ) (m : List (ℕ × F32))
      → ((k : ℕ) → elem k ks ≡ true → elem k (keys m) ≡ true)
      → (vs : List F32) × (weights_of rt ks m ≡ ok vs)
        × (length vs ≡ length ks)
        × ((k : ℕ) → value_at ks vs k ≡ (if elem k ks then find m k else none))
  unfolding weights_of
  weights_of-found [] m sub = ([], refl, refl, λ k. refl)
  weights_of-found (i ∷ ks) m sub =
      let (w, found) = find-elem m i (sub i (ground arith)) in
      let (vs, run, sized, values) = weights_of-found ks m (λ k h. sub k (ground arith)) in
      let head = weight_of-find m i w found in
      (
        w ∷ vs,
        rw (head, run, weights_of) refl,
        ap suc sized,
        λ k. elim (Bool-cases (i == k)) [
          | inl e ↦ rw e (
              let same : i ≡ k = (==_iff i k).0 e in
              sym (subst (λ j. find m j ≡ some w) same found))
          | inr n ↦ rw n (values k)
        ],
      )

  weight_found :
      (m : List (ℕ × F32)) (k : ℕ) (listed : Bool)
      → listed ≡ elem k (keys m)
      → (if listed then find m k else none) ≡ find m k
  weight_found m k true e = refl
  weight_found m k false e = sym (find-none m k (sym e))

  -- The sparse vector holds, for each token, its weight.
  pub record IsPooled (indices : List ℕ) (values : List F32) (tokens : List (ℕ × F32))
      : Type 0 where
    pub ascending : Ascending (λ k. k) indices
    pub distinct : Nodup indices
    pub aligned : length values ≡ length indices
    pub weights : (k : ℕ) → value_at indices values k ≡ weight_from none k tokens

  -- With a mask and scores for all tokens, the sparse vector of a text is a list of different token ids in
  -- ascending order, each with a value: the maximum of the scores of its unmasked positions that are
  -- positive. A special token, and one without such a score, is not listed.
  pub sparse_maxpool-IsPooled :
      (ids mask : List ℕ) (scores : List F32)
      → length ids ≤ length mask
      → length ids ≤ length scores
      → (indices : List ℕ) × (values : List F32) × (sparse_maxpool rt ids mask scores
          ≡ ok (indices, values))
        × IsPooled indices values (counted ids mask scores)
  unfolding sparse_maxpool
  sparse_maxpool-IsPooled ids mask scores lm ls =
      let (m, run, distinct, weights) =
        pool_tokens-counted ids mask scores mask scores 0 [] lm ls (At-start mask) (At-start scores)
          tt in
      let indices = rt.sort.sort_by_key (λ k. k) (keys m) in
      let perm = rt.sort.sort-perm (λ k. k) (keys m) in
      let same : (k : ℕ) → elem k indices ≡ elem k (keys m) =
        λ k. elem-perm k indices (keys m) perm in
      let (vs, listed, sized, values) = weights_of-found indices m (λ k h. sym (same k) ∙ h) in
      (
        indices,
        vs,
        rw (run, ◌>>=◌, sparse_maxpool) (rw (listed, ◌>>=◌) refl),
        record {
          ascending = rt.sort.sort-Ascending (λ k. k) (keys m);
          distinct = Perm.nodup (Perm.symm perm) (IsDistinct-Nodup (keys m) distinct);
          aligned = sized;
          weights = λ k. values k ∙ weight_found m k (elem k indices) (same k) ∙ weights k;
        },
      )
