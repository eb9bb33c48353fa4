-- ===== src/Prelude/Members.antt =====
-- Membership in lists of numbers as a Boolean, and the removal of one occurrence.
use Prim.Native.Nat.{ℕ, ◌+◌}
use mathlib.Core.Path.{◌≡◌, refl, sym, ◌∙◌}
use mathlib.Core.Logic.{◌≢◌, inl, inr}
use mathlib.Core.Bool.{Bool, true, false, ◌||◌}
use mathlib.Core.List.{
  List, [], ◌∷◌, ◌++◌, Mem, Perm, mem-cons, not-mem-nil, mem-cons_self, mem-cons_of_mem,
}
use mathlib.Core.List.Perm
use mathlib.Core.Logic.Or
use native.Mathlib.Omega.{arith}
use bge_m3_embedding_server.Prelude.Tests.{◌==◌, ==_iff, if◌then◌else◌, Bool-cases}
use bge_m3_embedding_server.Prelude.Lists.{length}

abbrev pub elem : ℕ → List ℕ → Bool
elem i [] = false
elem i (j ∷ js) = (j == i) || elem i js

-- The list without the first occurrence.
abbrev pub remove : ℕ → List ℕ → List ℕ
remove i [] = []
remove i (j ∷ js) = if j == i then js else j ∷ remove i js

pub elem-append : (i : ℕ) (xs ys : List ℕ) → elem i (xs ++ ys) ≡ (elem i xs || elem i ys)
elem-append i [] ys = refl
elem-append i (x ∷ xs) ys = ground (arith, elem-append i xs ys)

pub elem-remove : (i j : ℕ) (xs : List ℕ) → i ≢ j → elem i xs ≡ true → elem i (remove j xs) ≡ true
elem-remove i j [] n h = h
elem-remove i j (x ∷ xs) n h = ground (arith, elem-remove i j xs n)

-- What is left was there before.
pub elem-of_remove : (i j : ℕ) (xs : List ℕ) → elem i (remove j xs) ≡ true → elem i xs ≡ true
elem-of_remove i j [] h = h
elem-of_remove i j (x ∷ xs) h = ground (arith, elem-of_remove i j xs)

pub length-remove : (i : ℕ) (xs : List ℕ) → elem i xs ≡ true → length (remove i xs) + 1 ≡ length xs
length-remove i [] h = cc h
length-remove i (x ∷ xs) h = ground (arith, length-remove i xs)

Bool-set : IsSet Bool
Bool-set = hlevel

pub elem_of_mem : (j : ℕ) (is : List ℕ) → Mem j is → elem j is ≡ true
elem_of_mem j [] m = absurd (not-mem-nil m)
elem_of_mem j (i ∷ is) m =
    Or.elim (Bool-set _ _) (mem-cons.0 m) (λ e. ground (arith, e))
      (λ r. ground (arith, elem_of_mem j is r))

pub mem_of_elem : (j : ℕ) (is : List ℕ) → elem j is ≡ true → Mem j is
mem_of_elem j [] h = cc h
mem_of_elem j (i ∷ is) h = elim (Bool-cases (i == j)) [
  | inl e ↦ rw (sym ((==_iff i j).0 e)) mem-cons_self
  | inr n ↦ mem-cons_of_mem i (mem_of_elem j is (rw n at h))
]

pub elem-perm : (j : ℕ) (xs ys : List ℕ) → Perm xs ys → elem j xs ≡ elem j ys
elem-perm j xs ys p = elim (Bool-cases (elem j xs)) [
  | inl e ↦ e ∙ sym (elem_of_mem j ys ((Perm.mem_iff p).0 (mem_of_elem j xs e)))
  | inr n ↦ elim (Bool-cases (elem j ys)) [
    | inl e ↦ cc (elem_of_mem j xs ((Perm.mem_iff p).1 (mem_of_elem j ys e)))
    | inr n' ↦ n ∙ sym n'
  ]
]
