-- ===== src/TrtWarmup/Prewarm.antt =====
-- What the statistics of a warmup say of the engines.
use bge_m3_embedding_server.Prelude.{
  ℕ, zero, suc, ◌+◌, ◌≤◌, ◌<◌, ◌≡◌, refl, sym, ◌∙◌, inl, inr, max, Bool, true, false, not, ◌&&◌,
  Option, List, [], ◌∷◌, ◌++◌, map, arith, if◌then◌else◌, ltb, is_empty, ◌==◌, ==_iff, or_split,
  Bool-cases, All, length, Text,
}
use bge_m3_embedding_server.Runtime.{Runtime}
use bge_m3_embedding_server.Scores.{largest, smallest}
use bge_m3_embedding_server.TrtWarmup.Coverage.{IsBounded, coverage_check_shapes-IsBounded}
use bge_m3_embedding_server.TrtWarmup.{
  Shape, Host, ShapeRunResult, Sweep, PrewarmStats, tally, sweep, no_runs, prewarm_stats,
  run_warmup_shape, trt_prewarm, find_shape, push_new, has_shape, same_shape, after_checks,
  coverage_check_shapes, count_engine_files_for_sm,
}

abbrev pub seqs : List Shape → List ℕ
seqs ss = map (λ x. x.1) ss

tally-max :
    (w : Sweep) (seq : ℕ) (r : ShapeRunResult)
    → (tally w seq r).max_warmed_seq ≤ max w.max_warmed_seq seq
unfolding tally
tally-max w seq r = elim (Bool-cases r.succeeded) [
  | inl e ↦ rw e (omega arith)
  | inr e ↦ rw e (omega arith)
]

and_left : (a b : Bool) → (a && b) ≡ true → a ≡ true
and_left true b h = refl
and_left false b h = cc h

and_right : (a b : Bool) → (a && b) ≡ true → b ≡ true
and_right true b h = h
and_right false b h = cc h

if-either {ℓ κ} :
    {A : Type ℓ} (P : A → Type κ) (b : Bool) (x y : A) → P x → P y → P (if b then x else y)
if-either P true x y h k = h
if-either P false x y h k = k

tally-checks :
    (w : Sweep) (seq : ℕ) (r : ShapeRunResult)
    → (tally w seq r).all_checks_fast ≡ (w.all_checks_fast && (r.cache_hit && r.succeeded))
unfolding tally
tally-checks w seq r =
    if-either
      (λ (x : Sweep). x.all_checks_fast ≡ (w.all_checks_fast && (r.cache_hit && r.succeeded)))
      r.succeeded _ _ refl refl

-- A run that leaves the checks fast succeeded from the cache.
tally-fast :
    (w : Sweep) (seq : ℕ) (r : ShapeRunResult)
    → (tally w seq r).all_checks_fast ≡ true
    → (w.all_checks_fast ≡ true)
      × ((tally w seq r).warmed ≡ w.warmed + 1)
      × ((tally w seq r).fresh_compiles ≡ w.fresh_compiles)
      × ((tally w seq r).max_warmed_seq ≡ max w.max_warmed_seq seq)
unfolding tally
tally-fast w seq r g =
    let h = sym (tally-checks w seq r) ∙ g in
    let both = and_right w.all_checks_fast (r.cache_hit && r.succeeded) h in
    let hit = and_left r.cache_hit r.succeeded both in
    let done = and_right r.cache_hit r.succeeded both in
    (
      and_left w.all_checks_fast (r.cache_hit && r.succeeded) h,
      rw done refl,
      rw (done, hit) refl,
      rw done refl,
    )

module _ (rt : Runtime) (host : Host rt) where
  sweep-max :
      (test : Shape → Bool) (ss : List Shape) (w : Sweep) (s : rt.Session)
      → (sweep rt host test ss w s).0.max_warmed_seq ≤ max w.max_warmed_seq (largest (seqs ss))
  unfolding sweep
  sweep-max test [] w s = omega arith
  sweep-max test (x ∷ ss) w s = elim (Bool-cases (test x)) [
    | inl e ↦
        rw (e, sweep)
          (omega (
            arith,
            sweep-max test ss (tally w x.1 (run_warmup_shape rt host s x).0)
                (run_warmup_shape rt host s x).1,
            tally-max w x.1 (run_warmup_shape rt host s x).0,
          ))
    | inr e ↦ rw (e, sweep) (omega (arith, sweep-max test ss w s))
  ]

  sweep-fast :
      (ss : List Shape) (w : Sweep) (s : rt.Session)
      → (sweep rt host (λ x. true) ss w s).0.all_checks_fast ≡ true
      → let w' = (sweep rt host (λ x. true) ss w s).0 in
        (w.all_checks_fast ≡ true)
        × (w'.warmed ≡ w.warmed + length ss)
        × (w'.fresh_compiles ≡ w.fresh_compiles)
        × (w'.max_warmed_seq ≡ max w.max_warmed_seq (largest (seqs ss)))
  unfolding sweep
  sweep-fast [] w s h = (h, omega arith, refl, omega arith)
  sweep-fast (x ∷ ss) w s h =
      let r = (run_warmup_shape rt host s x).0 in
      let (fast, warmed, fresh, top) =
        sweep-fast ss (tally w x.1 r) (run_warmup_shape rt host s x).1 h in
      let (fast', warmed', fresh', top') = tally-fast w x.1 r fast in
      (fast', omega (arith, warmed, warmed'), fresh ∙ fresh', omega (arith, top, top'))

  after_checks-max :
      (shapes : List Shape) (sm : Option Text) (before : ℕ) (cs : List Shape) (w : Sweep)
      (s : rt.Session) (m : ℕ)
      → w.max_warmed_seq ≤ m
      → largest (seqs shapes) ≤ m
      → (after_checks rt host shapes sm before cs w s).0.max_warmed_seq ≤ m
  unfolding after_checks prewarm_stats
  after_checks-max shapes sm before cs w s m h k =
      if-either (λ (r : PrewarmStats × rt.Session). r.0.max_warmed_seq ≤ m) w.all_checks_fast _ _ h
        (omega (arith, sweep-max (λ x. not (has_shape cs x)) shapes w s))

  after_checks-fully_cached :
      (shapes : List Shape) (sm : Option Text) (before : ℕ) (cs : List Shape) (w : Sweep)
      (s : rt.Session)
      → let stats = (after_checks rt host shapes sm before cs w s).0 in
        stats.fully_cached ≡ true
        → (w.all_checks_fast ≡ true)
          × (stats.fresh_compiles ≡ w.fresh_compiles)
          × (stats.max_warmed_seq ≡ w.max_warmed_seq)
  unfolding after_checks prewarm_stats
  after_checks-fully_cached shapes sm before cs w s h = elim (Bool-cases w.all_checks_fast) [
    | inl e ↦ (e, rw (e, after_checks) refl, rw (e, after_checks) refl)
    | inr e ↦ cc (rw (e, after_checks) at h)
  ]

  -- The shapes that are checked are shapes of the shard.
  find_shape-within :
      (test : Shape → Bool) (d : Shape) (ss : List Shape) (m : ℕ)
      → d.1 ≤ m
      → largest (seqs ss) ≤ m
      → (find_shape test d ss).1 ≤ m
  unfolding find_shape
  find_shape-within test d [] m h k = h
  find_shape-within test d (x ∷ ss) m h k = elim (Bool-cases (test x)) [
    | inl e ↦ rw (e, find_shape) (omega arith)
    | inr e ↦ rw (e, find_shape) (find_shape-within test d ss m h (omega arith))
  ]

  largest-append :
      (xs : List Shape) (x : Shape) (m : ℕ)
      → largest (seqs xs) ≤ m
      → x.1 ≤ m
      → largest (seqs (xs ++ x ∷ [])) ≤ m
  largest-append [] x m h k = omega arith
  largest-append (y ∷ xs) x m h k = omega (arith, largest-append xs x m (omega arith) k)

  push_new-within :
      (ss result : List Shape) (m : ℕ)
      → largest (seqs ss) ≤ m
      → largest (seqs result) ≤ m
      → largest (seqs (push_new ss result)) ≤ m
  unfolding push_new
  push_new-within [] result m h k = k
  push_new-within (x ∷ ss) result m h k = elim (Bool-cases (has_shape result x)) [
    | inl e ↦ rw (e, push_new) (push_new-within ss result m (omega arith) k)
    | inr e ↦
        rw (e, push_new)
          (push_new-within ss (result ++ x ∷ []) m (omega arith)
            (largest-append result x m k (omega arith)))
  ]

  checks-within :
      (x : Shape) (xs : List Shape)
      → largest (seqs (coverage_check_shapes (x ∷ xs))) ≤ largest (seqs (x ∷ xs))
  unfolding coverage_check_shapes
  checks-within x xs =
      let m = largest (seqs (x ∷ xs)) in
      let at_most =
        λ (test : Shape → Bool). find_shape-within test x (x ∷ xs) m (omega arith) (omega arith) in
      push_new-within _ [] m
        (omega (
          arith,
          at_most (λ y. y.0 == smallest x.0 (map (λ z. z.0) xs)),
          at_most (λ y. y.0 == largest (map (λ z. z.0) (x ∷ xs))),
          at_most (λ y. y.1 == smallest x.1 (map (λ z. z.1) xs)),
          at_most (λ y. y.1 == largest (map (λ z. z.1) (x ∷ xs))),
        ))
        (omega arith)

  picked-within :
      (x : Shape) (xs : List Shape) (before : ℕ)
      → largest (seqs (if ltb 0 before then coverage_check_shapes (x ∷ xs) else []))
        ≤ largest (seqs (x ∷ xs))
  picked-within x xs before = elim (Bool-cases (ltb 0 before)) [
    | inl e ↦ rw e (checks-within x xs)
    | inr e ↦ rw e (omega arith)
  ]

  -- The length that a warmup adds to the warmed ceiling is at most the longest of its shapes.
  pub trt_prewarm-bounded :
      (shapes : List Shape) (sm : Option Text) (s : rt.Session)
      → (trt_prewarm rt host shapes sm s).0.max_warmed_seq ≤ largest (seqs shapes)
  unfolding trt_prewarm prewarm_stats
  trt_prewarm-bounded [] sm s = omega arith
  trt_prewarm-bounded (x ∷ xs) sm s =
      let before = count_engine_files_for_sm rt host s sm in
      let cs = if ltb 0 before then coverage_check_shapes (x ∷ xs) else [] in
      let (w, s') = sweep rt host (λ x. true) cs (no_runs rt host (not (is_empty cs))) s in
      after_checks-max (x ∷ xs) sm before cs w s' (largest (seqs (x ∷ xs)))
        (omega (
          arith,
          sweep-max (λ x. true) cs (no_runs rt host (not (is_empty cs))) s,
          picked-within x xs before,
        ))
        (omega arith)

  has_shape-largest :
      (cs : List Shape) (d : Shape) → has_shape cs d ≡ true → d.1 ≤ largest (seqs cs)
  has_shape-largest [] d h = cc h
  has_shape-largest (c ∷ cs) d h = elim (or_split (same_shape c d) (has_shape cs d) h) [
    | inl e ↦ omega (arith, (==_iff c.1 d.1).0 (and_right (c.0 == d.0) (c.1 == d.1) e))
    | inr e ↦ omega (arith, has_shape-largest cs d e)
  ]

  largest-bounded :
      (cs ss : List Shape) → All (IsBounded cs) ss → largest (seqs ss) ≤ largest (seqs cs)
  largest-bounded cs [] a = omega arith
  largest-bounded cs (x ∷ ss) (bounds, a) =
      let (p, q, r, d, has_p, has_q, has_r, has_d, lo_b, hi_b, lo_s, hi_s) = bounds in
      omega (arith, hi_s, has_shape-largest cs d has_d, largest-bounded cs ss a)

  checked-fully_cached :
      (shapes : List Shape) (sm : Option Text) (before : ℕ) (cs : List Shape) (s : rt.Session)
      → let checked = sweep rt host (λ x. true) cs (no_runs rt host (not (is_empty cs))) s in
        let stats = (after_checks rt host shapes sm before cs checked.0 checked.1).0 in
        stats.fully_cached ≡ true
        → (not (is_empty cs) ≡ true)
          × (stats.fresh_compiles ≡ 0)
          × (stats.max_warmed_seq ≡ largest (seqs cs))
  checked-fully_cached shapes sm before cs s h =
      let (w, s') = sweep rt host (λ x. true) cs (no_runs rt host (not (is_empty cs))) s in
      let (fast, fresh, top) = after_checks-fully_cached shapes sm before cs w s' h in
      let (some_check, warmed, fresh', top') =
        sweep-fast cs (no_runs rt host (not (is_empty cs))) s fast in
      (some_check, fresh ∙ fresh', top ∙ top' ∙ omega arith)

  picked-some :
      (shapes : List Shape) (before : ℕ)
      → not (is_empty (if ltb 0 before then coverage_check_shapes shapes else [])) ≡ true
      → 0 < before
  picked-some shapes zero h = cc h
  picked-some shapes (suc n) h = omega arith

  picked-largest :
      (x : Shape) (xs : List Shape) (before : ℕ)
      → 0 < before
      → largest (seqs (if ltb 0 before then coverage_check_shapes (x ∷ xs) else []))
        ≡ largest (seqs (x ∷ xs))
  picked-largest x xs before h = elim (Bool-cases (ltb 0 before)) [
    | inl e ↦ rw e (
        omega (
          arith,
          checks-within x xs,
          largest-bounded (coverage_check_shapes (x ∷ xs)) (x ∷ xs)
              (coverage_check_shapes-IsBounded (x ∷ xs)),
        ))
    | inr e ↦ absurd (ground arith)
  ]

  -- A shard that is reported as fully cached had engine files, was checked without a compile, and is
  -- warmed up to its longest sequence.
  pub trt_prewarm-fully_cached :
      (shapes : List Shape) (sm : Option Text) (s : rt.Session)
      → (trt_prewarm rt host shapes sm s).0.fully_cached ≡ true
      → (0 < count_engine_files_for_sm rt host s sm)
        × ((trt_prewarm rt host shapes sm s).0.fresh_compiles ≡ 0)
        × ((trt_prewarm rt host shapes sm s).0.max_warmed_seq ≡ largest (seqs shapes))
  unfolding trt_prewarm prewarm_stats
  trt_prewarm-fully_cached [] sm s h = cc h
  trt_prewarm-fully_cached (x ∷ xs) sm s h =
      let before = count_engine_files_for_sm rt host s sm in
      let cs = if ltb 0 before then coverage_check_shapes (x ∷ xs) else [] in
      let (some_check, fresh, top) = checked-fully_cached (x ∷ xs) sm before cs s h in
      let files = picked-some (x ∷ xs) before some_check in
      (files, fresh, top ∙ picked-largest x xs before files)
