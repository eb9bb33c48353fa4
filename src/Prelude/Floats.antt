-- ===== src/Prelude/Floats.antt =====
-- The `f64` operations that the server uses. Floating point is not part of the checked
-- arithmetic: the carrier and its operations are parameters, and the laws below are facts of
-- IEEE 754 and of Rust's saturating casts.
use Prim.Native.Nat
use Prim.Native.Nat.{ℕ, ◌+◌, ◌*◌, ◌/◌, ◌-◌, ◌^◌, ◌≤◌, ◌<◌, min}
use mathlib.Core.Path.{◌≡◌}
use mathlib.Core.Logic.{inl, inr}
use mathlib.Core.Bool.{Bool, false}
use native.Mathlib.Omega.{arith}
use bge_m3_embedding_server.Prelude.Tests.{ltb, ◌==◌, if◌then◌else◌, Bool-cases}

pub record F64 : Type 1 where
  pub Carrier : Type 0
  -- `n as f64`
  pub of_ℕ : ℕ → Carrier
  pub mul : Carrier → Carrier → Carrier
  pub div : Carrier → Carrier → Carrier
  -- `x as u128` and `x as usize`: truncated, saturating, and 0 at NaN.
  pub to_u128 : Carrier → ℕ
  pub to_usize : Carrier → ℕ
  -- `0 ≤ x ≤ y`, so neither is NaN.
  pub Le : Carrier → Carrier → Type 0
  -- `0 < x`
  pub Positive : Carrier → Type 0

-- Conversions, products and casts are monotone on the non-negative values. A product with a
-- positive factor is not NaN.
pub record Monotone (f : F64) : Type 0 where
  pub of_ℕ_mono : (m n : ℕ) → m ≤ n → f.Le (f.of_ℕ m) (f.of_ℕ n)
  pub of_ℕ_positive : (n : ℕ) → 0 < n → f.Positive (f.of_ℕ n)
  pub mul_mono :
      (a b c d : f.Carrier) → f.Le a b → f.Le c d → f.Positive c → f.Le (f.mul a c) (f.mul b d)
  pub to_u128_mono : (a b : f.Carrier) → f.Le a b → f.to_u128 a ≤ f.to_u128 b

-- Whole numbers meet the laws.
abbrev pub whole : F64
whole = record {
  Carrier = ℕ;
  of_ℕ = λ n. n;
  mul = ◌*◌;
  div = ◌/◌;
  to_u128 = λ x. min x (2 ^ 128 - 1);
  to_usize = λ x. min x (2 ^ 64 - 1);
  Le = ◌≤◌;
  Positive = λ x. 0 < x;
}

mul_le_mul : (a b c d : ℕ) → a ≤ b → c ≤ d → 0 < c → a * c ≤ b * d
mul_le_mul a b c d h k p = grind arith

saturate_mono : (a b : ℕ) → a ≤ b → min a (2 ^ 128 - 1) ≤ min b (2 ^ 128 - 1)
saturate_mono a b h = omega arith

pub whole-Monotone : Monotone whole
whole-Monotone = record {
  of_ℕ_mono = λ m n h. h;
  of_ℕ_positive = λ n h. h;
  mul_mono = mul_le_mul;
  to_u128_mono = saturate_mono;
}

-- What the fit of the cost model needs on top: `max` and `clamp` follow the comparison of the
-- standard library, in which nothing is below or above NaN.
pub record FitOps (f : F64) : Type 0 where
  pub add : f.Carrier → f.Carrier → f.Carrier
  pub sub : f.Carrier → f.Carrier → f.Carrier
  pub abs : f.Carrier → f.Carrier
  pub max : f.Carrier → f.Carrier → f.Carrier
  pub lt : f.Carrier → f.Carrier → Bool
  pub eq : f.Carrier → f.Carrier → Bool
  -- The literal for a numerator and a denominator.
  pub ratio : ℕ → ℕ → f.Carrier

-- `x.clamp(lo, hi)`
abbrev pub clamp : {f : F64} → FitOps f → f.Carrier → f.Carrier → f.Carrier → f.Carrier
clamp ops x lo hi = if ops.lt x lo then lo else if ops.lt hi x then hi else x

-- Nothing is below itself, and the bounds are in order.
pub record IsRange {f : F64} (ops : FitOps f) (lo hi : f.Carrier) : Type 0 where
  pub lo_irrefl : ops.lt lo lo ≡ false
  pub hi_irrefl : ops.lt hi hi ≡ false
  pub in_order : ops.lt hi lo ≡ false

-- Neither below the one nor above the other.
abbrev pub IsWithin : {f : F64} → FitOps f → f.Carrier → f.Carrier → f.Carrier → Type 0
IsWithin ops lo hi x = (ops.lt x lo ≡ false) × (ops.lt hi x ≡ false)

pub clamp-IsWithin :
    {f : F64} (ops : FitOps f) (x lo hi : f.Carrier)
    → IsRange ops lo hi
    → IsWithin ops lo hi (clamp ops x lo hi)
clamp-IsWithin ops x lo hi r = elim (Bool-cases (ops.lt x lo)) [
  | inl e ↦ rw e (r.lo_irrefl, r.in_order)
  | inr e ↦ elim (Bool-cases (ops.lt hi x)) [
    | inl g ↦ rw (e, g) (r.in_order, r.hi_irrefl)
    | inr g ↦ rw (e, g) (e, g)
  ]
]

-- Whole numbers meet these laws, too: literals are rounded down.
abbrev pub whole_ops : FitOps whole
whole_ops = record {
  add = ◌+◌;
  sub = ◌-◌;
  abs = λ x. x;
  max = Prim.Native.Nat.max;
  lt = ltb;
  eq = ◌==◌;
  ratio = λ n d. n / d;
}
