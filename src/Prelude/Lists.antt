-- ===== src/Prelude/Lists.antt =====
-- Vectors and slices as lists, measured and indexed by native numbers.
use Prim.Native.Nat.{ℕ, zero, suc, ◌+◌, ◌<◌, max}
use mathlib.Core.Path.{◌≡◌, refl, ap, ◌∙◌}
use mathlib.Core.Logic.{◌≢◌}
use mathlib.Core.Bool.{Bool, true, false}
use mathlib.Core.List.{
  List, [], ◌∷◌, ◌++◌, flatten, append_assoc, append-nil, Mem, mem-cons_self, mem-cons_of_mem,
}
use mathlib.Core.Option.{Option, none, some}
use native.Mathlib.Omega.{arith}

module _ {ℓ} {A : Type ℓ} where
  abbrev pub length : List A → ℕ
  length [] = 0
  length (x ∷ xs) = suc (length xs)

  abbrev pub is_empty : List A → Bool
  is_empty [] = true
  is_empty (x ∷ xs) = false

  abbrev pub get_elem? : List A → ℕ → Option A
  get_elem? [] i = none
  get_elem? (x ∷ xs) zero = some x
  get_elem? (x ∷ xs) (suc i) = get_elem? xs i

  abbrev pub get_or : List A → ℕ → A → A
  get_or [] i d = d
  get_or (x ∷ xs) zero d = x
  get_or (x ∷ xs) (suc i) d = get_or xs i d

  -- A write out of bounds changes nothing.
  abbrev pub set : List A → ℕ → A → List A
  set [] i v = []
  set (x ∷ xs) zero v = v ∷ xs
  set (x ∷ xs) (suc i) v = x ∷ set xs i v

  abbrev pub replicate : ℕ → A → List A
  replicate zero a = []
  replicate (suc n) a = a ∷ replicate n a

  -- A predicate holds of each element.
  abbrev pub All {κ} : (A → Type κ) → List A → Type κ
  All P [] = Unit
  All P (x ∷ xs) = P x × All P xs

  pub length-append : (xs ys : List A) → length (xs ++ ys) ≡ length xs + length ys
  length-append [] ys = omega arith
  length-append (x ∷ xs) ys = omega (arith, length-append xs ys)

  pub length-set : (xs : List A) (i : ℕ) (v : A) → length (set xs i v) ≡ length xs
  length-set [] i v = refl
  length-set (x ∷ xs) zero v = refl
  length-set (x ∷ xs) (suc i) v = ap suc (length-set xs i v)

  pub get_elem?-set_self :
      (xs : List A) (i : ℕ) (v : A) → i < length xs → get_elem? (set xs i v) i ≡ some v
  get_elem?-set_self [] i v h = absurd (omega arith)
  get_elem?-set_self (x ∷ xs) zero v h = refl
  get_elem?-set_self (x ∷ xs) (suc i) v h = get_elem?-set_self xs i v (omega arith)

  pub get_elem?-set_ne :
      (xs : List A) (i j : ℕ) (v : A) → i ≢ j → get_elem? (set xs i v) j ≡ get_elem? xs j
  get_elem?-set_ne [] i j v h = refl
  get_elem?-set_ne (x ∷ xs) zero zero v h = absurd (h refl)
  get_elem?-set_ne (x ∷ xs) zero (suc j) v h = refl
  get_elem?-set_ne (x ∷ xs) (suc i) zero v h = refl
  get_elem?-set_ne (x ∷ xs) (suc i) (suc j) v h = get_elem?-set_ne xs i j v (λ e. h (ap suc e))

  pub All-append {κ} : (P : A → Type κ) (xs ys : List A) → All P xs → All P ys → All P (xs ++ ys)
  All-append P [] ys hx hy = hy
  All-append P (x ∷ xs) ys hx hy = (hx.0, All-append P xs ys hx.1 hy)

  pub All-of_mem {κ} : {P : A → Type κ} (xs : List A) → ((a : A) → Mem a xs → P a) → All P xs
  All-of_mem [] h = tt
  All-of_mem (x ∷ xs) h = (h x mem-cons_self, All-of_mem xs (λ a m. h a (mem-cons_of_mem x m)))

-- `start..start + count`.
abbrev pub range_from : ℕ → ℕ → List ℕ
range_from start zero = []
range_from start (suc n) = start ∷ range_from (suc start) n

pub length-range_from : (s n : ℕ) → length (range_from s n) ≡ n
length-range_from s zero = refl
length-range_from s (suc n) = ap suc (length-range_from (suc s) n)

pub flatten-append {ℓ} :
    {A : Type ℓ} (xs ys : List (List A)) → flatten (xs ++ ys) ≡ flatten xs ++ flatten ys
unfolding flatten
flatten-append [] ys = refl
flatten-append (x ∷ xs) ys = rw (flatten-append xs ys, append_assoc)

pub flatten-snoc {ℓ} :
    {A : Type ℓ} (xs : List (List A)) (y : List A) → flatten (xs ++ y ∷ []) ≡ flatten xs ++ y
unfolding flatten
flatten-snoc xs y = rw (flatten-append xs (y ∷ []), append-nil)

-- `is.iter().map(|&i| lens[i]).max()`, 0 for no index.
abbrev pub longest : List ℕ → List ℕ → ℕ
longest lens [] = 0
longest lens (i ∷ is) = max (get_or lens i 0) (longest lens is)

pub longest-snoc :
    (lens xs : List ℕ) (i : ℕ)
    → longest lens (xs ++ i ∷ []) ≡ max (longest lens xs) (get_or lens i 0)
longest-snoc lens [] i = omega arith
longest-snoc lens (x ∷ xs) i = omega (arith, longest-snoc lens xs i)

module _ {ℓ κ} {A : Type ℓ} (P : A → Type κ) where
  All-split : (xs ys : List A) → All P (xs ++ ys) → All P xs × All P ys
  All-split [] ys a = (tt, a)
  All-split (x ∷ xs) ys a = let (h, t) = All-split xs ys a.1 in ((a.0, h), t)

  pub All-of_flatten : (xss : List (List A)) → All P (flatten xss) → All (All P) xss
  unfolding flatten
  All-of_flatten [] a = tt
  All-of_flatten (xs ∷ xss) a =
      let (h, t) = All-split xs (flatten xss) a in (h, All-of_flatten xss t)

-- From a position on, the first list holds the second.
abbrev pub At {ℓ} : {A : Type ℓ} → List A → ℕ → List A → Type ℓ
At xs pos ys = (k : ℕ) → k < length ys → get_elem? xs (pos + k) ≡ get_elem? ys k

pub At-head {ℓ} :
    {A : Type ℓ} (xs : List A) (pos : ℕ) (y : A) (ys : List A)
    → At xs pos (y ∷ ys)
    → get_elem? xs pos ≡ some y
At-head xs pos y ys a = ap (get_elem? xs) (omega arith) ∙ a 0 (omega arith)

pub At-tail {ℓ} :
    {A : Type ℓ} (xs : List A) (pos : ℕ) (y : A) (ys : List A)
    → At xs pos (y ∷ ys)
    → At xs (suc pos) ys
At-tail xs pos y ys a k h = ap (get_elem? xs) (omega arith) ∙ a (suc k) (omega arith)

pub At-start {ℓ} : {A : Type ℓ} (xs : List A) → At xs 0 xs
At-start xs k h = ap (get_elem? xs) (omega arith)
