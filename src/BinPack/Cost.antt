-- ===== src/BinPack/Cost.antt =====
-- How the estimated workspace of a chunk depends on its size.
use bge_m3_embedding_server.Prelude.{ℕ, ◌*◌, ◌≤◌, ◌<◌, ◌≡◌, true, arith, leb→le, le→leb}
use bge_m3_embedding_server.Prelude.Floats.{F64, Monotone}
use bge_m3_embedding_server.BinPack.{CostModel, chunk_cost, fits}

mul_mono_ℕ : (a b c d : ℕ) → a ≤ c → b ≤ d → a * b ≤ c * d
mul_mono_ℕ a b c d h k = grind arith

mul_pos : (a b : ℕ) → 0 < a → 0 < b → 0 < a * b
mul_pos a b h k = grind arith

module _ (f : F64) (laws : Monotone f) (cm : CostModel f.Carrier) where
  -- With coefficients that are not negative, fewer texts or shorter padding never cost more.
  pub chunk_cost_mono :
      f.Le cm.a cm.a
      → f.Le cm.b cm.b
      → (m s n t : ℕ) → 0 < m
      → 0 < s
      → m ≤ n
      → s ≤ t
      → chunk_cost f cm m s ≤ chunk_cost f cm n t
  unfolding chunk_cost
  chunk_cost_mono ha hb m s n t pm ps h k =
      let positions = laws.of_ℕ_mono (m * s) (n * t) (mul_mono_ℕ m s n t h k) in
      let some_position = laws.of_ℕ_positive (m * s) (mul_pos m s pm ps) in
      let linear = laws.to_u128_mono _ _ (laws.mul_mono _ _ _ _ ha positions some_position) in
      let quad = laws.to_u128_mono _ _ (
        laws.mul_mono _ _ _ _ (laws.mul_mono _ _ _ _ hb positions some_position)
          (laws.of_ℕ_mono s t k) (laws.of_ℕ_positive s ps)) in
      omega (arith, linear, quad)

  -- With such coefficients and monotone floats, if a chunk fits the budget, so does one of fewer texts
  -- or shorter padding that has a text and a token.
  pub fits_part :
      f.Le cm.a cm.a
      → f.Le cm.b cm.b
      → (m s n t : ℕ) → 0 < m
      → 0 < s
      → m ≤ n
      → s ≤ t
      → fits f cm n t ≡ true
      → fits f cm m s ≡ true
  unfolding fits
  fits_part ha hb m s n t pm ps h k e =
      le→leb _ _ (omega (arith, chunk_cost_mono ha hb m s n t pm ps h k, leb→le _ _ e))
