-- ===== src/Probe/Fit.antt =====
-- src/probe/fit.rs: the least-squares fit of the cost model, over abstract floats.
use bge_m3_embedding_server.Prelude.{
  ℕ, ◌*◌, ◌%◌, ◌^◌, ◌<◌, ◌≡◌, subst, inl, inr, Bool, ◌||◌, Option, none, some, List, arith, ltb,
  if◌then◌else◌, length, foldl, map, Bool-cases,
}
use mathlib.Core.Option.{some_inj}
use bge_m3_embedding_server.Prelude.Floats.{F64, FitOps, clamp, IsRange, IsWithin, clamp-IsWithin}

pub record DataPoint : Type 0 where
  pub batch : ℕ
  pub seq : ℕ
  pub rss_delta : ℕ

-- `dp.batch * dp.seq` and `dp.batch * dp.seq * dp.seq`, on 64 bits.
abbrev pub linear_term : DataPoint → ℕ
linear_term dp = (dp.batch * dp.seq) % 2 ^ 64

abbrev pub quadratic_term : DataPoint → ℕ
quadratic_term dp = (((dp.batch * dp.seq) % 2 ^ 64) * dp.seq) % 2 ^ 64

module _ (f : F64) (ops : FitOps f) where
  open f use {Carrier, of_ℕ, mul, div}
  open ops use {add, sub, abs, max, lt, eq, ratio}

  abbrev fold_max : List Carrier → Carrier
  fold_max = foldl max (of_ℕ 0)

  -- The sums of the normal equations.
  pub record Gram : Type 0 where
    pub g11 : Carrier
    pub g12 : Carrier
    pub g22 : Carrier
    pub gy1 : Carrier
    pub gy2 : Carrier

  unfoldable pub gram_step : Carrier → Carrier → Gram → DataPoint → Gram
  gram_step x1 x2 g dp =
      let n1 = div (of_ℕ (linear_term dp)) x1 in
      let n2 = div (of_ℕ (quadratic_term dp)) x2 in
      let y = of_ℕ dp.rss_delta in
      record {
        g11 = add g.g11 (mul n1 n1);
        g12 = add g.g12 (mul n1 n2);
        g22 = add g.g22 (mul n2 n2);
        gy1 = add g.gy1 (mul n1 y);
        gy2 = add g.gy2 (mul n2 y);
      }

  abbrev empty_gram : Gram
  empty_gram = record { g11 = of_ℕ 0; g12 = of_ℕ 0; g22 = of_ℕ 0; gy1 = of_ℕ 0; gy2 = of_ℕ 0 }

  abbrev pub min_a : Carrier
  min_a = of_ℕ 4096

  abbrev pub max_a : Carrier
  max_a = of_ℕ 262144

  abbrev pub min_b : Carrier
  min_b = ratio 1 100

  abbrev pub max_b : Carrier
  max_b = of_ℕ 50000

  -- The end of `fit_cost_model`: a negative `b` fails, a negative `a` is raised.
  unfoldable pub clamp_coefficients : Carrier → Carrier → Option (Carrier × Carrier)
  clamp_coefficients a_raw b_raw =
      if lt b_raw (of_ℕ 0)
      then none
      else some (clamp ops (max a_raw (of_ℕ 0)) min_a max_a, clamp ops b_raw min_b max_b)

  abbrev determinant : Gram → Carrier
  determinant g = sub (mul g.g11 g.g22) (mul g.g12 g.g12)

  abbrev is_nearly_singular : Gram → Bool
  is_nearly_singular g =
      let max_diag = max g.g11 g.g22 in
      lt (abs (determinant g)) (mul (ratio 1 1000000) (mul max_diag max_diag))

  -- Cramer's rule, unless the equations are nearly singular.
  unfoldable pub solve : Carrier → Carrier → Gram → Option (Carrier × Carrier)
  unfolding clamp_coefficients
  solve x1 x2 g =
      let alpha = div (sub (mul g.g22 g.gy1) (mul g.g12 g.gy2)) (determinant g) in
      let beta = div (sub (mul g.g11 g.gy2) (mul g.g12 g.gy1)) (determinant g) in
      if is_nearly_singular g then none else clamp_coefficients (div alpha x1) (div beta x2)

  abbrev x1_max : List DataPoint → Carrier
  x1_max data_points = fold_max (map (λ dp. of_ℕ (linear_term dp)) data_points)

  abbrev x2_max : List DataPoint → Carrier
  x2_max data_points = fold_max (map (λ dp. of_ℕ (quadratic_term dp)) data_points)

  abbrev is_degenerate : List DataPoint → Bool
  is_degenerate ps = eq (x1_max ps) (of_ℕ 0) || eq (x2_max ps) (of_ℕ 0)

  unfoldable pub fit_cost_model : List DataPoint → Option (Carrier × Carrier)
  unfolding gram_step solve
  fit_cost_model ps =
      if ltb (length ps) 2
      then none
      else if is_degenerate ps
      then none
      else solve (x1_max ps) (x2_max ps) (foldl (gram_step (x1_max ps) (x2_max ps)) empty_gram ps)

  abbrev pub IsPlausible : Carrier × Carrier → Type 0
  IsPlausible (a, b) = IsWithin ops min_a max_a a × IsWithin ops min_b max_b b

  clamp_coefficients-IsPlausible :
      (a_raw b_raw : Carrier) (r : Carrier × Carrier)
      → IsRange ops min_a max_a
      → IsRange ops min_b max_b
      → clamp_coefficients a_raw b_raw ≡ some r
      → IsPlausible r
  unfolding clamp_coefficients
  clamp_coefficients-IsPlausible a_raw b_raw r ra rb h = elim (Bool-cases (lt b_raw (of_ℕ 0))) [
    | inl e ↦ cc (rw (e, clamp_coefficients) at h)
    | inr e ↦ subst IsPlausible (some_inj.0 (rw (e, clamp_coefficients) at h)) (
      clamp-IsWithin ops (max a_raw (of_ℕ 0)) min_a max_a ra,
      clamp-IsWithin ops b_raw min_b max_b rb,
    )
  ]

  solve-IsPlausible :
      (x1 x2 : Carrier) (g : Gram) (r : Carrier × Carrier)
      → IsRange ops min_a max_a
      → IsRange ops min_b max_b
      → solve x1 x2 g ≡ some r
      → IsPlausible r
  unfolding solve
  solve-IsPlausible x1 x2 g r ra rb h = elim (Bool-cases (is_nearly_singular g)) [
    | inl e ↦ cc (rw (e, solve) at h)
    | inr e ↦ clamp_coefficients-IsPlausible _ _ r ra rb (rw (e, solve) at h)
  ]

  -- If the bounds of the coefficients are in order and not below themselves, then a fit that succeeds
  -- has two measurements at least, and its coefficients are within their bounds: neither below
  -- 4,096 nor above 262,144 for each token, and neither below 0.01 nor above 50,000 for its square.
  pub fit_cost_model-IsPlausible :
      (data_points : List DataPoint) (r : Carrier × Carrier)
      → IsRange ops min_a max_a
      → IsRange ops min_b max_b
      → fit_cost_model data_points ≡ some r
      → (1 < length data_points) × IsPlausible r
  unfolding fit_cost_model
  fit_cost_model-IsPlausible data_points r ra rb h =
      elim (Bool-cases (ltb (length data_points) 2)) [
        | inl e ↦ cc (rw (e, fit_cost_model) at h)
        | inr e ↦ elim (Bool-cases (is_degenerate data_points)) [
          | inl g ↦ cc (rw (e, g, fit_cost_model) at h)
          | inr g ↦ (ground arith, solve-IsPlausible _ _ _ r ra rb (rw (e, g, fit_cost_model) at h))
        ]
      ]
