-- ===== src/Prelude/Orders.antt =====
-- Lists in ascending order of a key, and what `slice::sort_unstable_by_key` promises: the same
-- elements, in ascending order of the key. The order among equal keys is left open.
use Prim.Native.Nat.{ℕ, ◌≤◌}
use mathlib.Core.List.{List, [], ◌∷◌, Perm}
use mathlib.Core.List.Perm
use native.Mathlib.Omega.{arith}
use bge_m3_embedding_server.Prelude.Tests.{leb, if◌then◌else◌}
use bge_m3_embedding_server.Prelude.Lists.{All}

module _ (key : ℕ → ℕ) where
  abbrev pub Ascending : List ℕ → Type 0
  Ascending [] = Unit
  Ascending (x ∷ xs) = All (λ y. key x ≤ key y) xs × Ascending xs

-- The standard library's sort, whose algorithm is not part of the program.
pub record UnstableSort : Type 0 where
  pub sort_by_key : (ℕ → ℕ) → List ℕ → List ℕ
  pub sort-perm : (key : ℕ → ℕ) (xs : List ℕ) → Perm (sort_by_key key xs) xs
  pub sort-Ascending : (key : ℕ → ℕ) (xs : List ℕ) → Ascending key (sort_by_key key xs)

-- Insertion sort is such a sort.
module _ (key : ℕ → ℕ) where
  insert : ℕ → List ℕ → List ℕ
  insert x [] = x ∷ []
  insert x (y ∷ ys) = if leb (key x) (key y) then x ∷ y ∷ ys else y ∷ insert x ys

  unfoldable pub insertion_sort : List ℕ → List ℕ
  unfolding insert
  insertion_sort [] = []
  insertion_sort (x ∷ xs) = insert x (insertion_sort xs)

  insert-perm : (x : ℕ) (ys : List ℕ) → Perm (insert x ys) (x ∷ ys)
  unfolding insert
  insert-perm x [] = Perm.refl (x ∷ [])
  insert-perm x (y ∷ ys) = ground (
    arith,
    Perm.refl (x ∷ y ∷ ys),
    Perm.trans (Perm.cons y (insert-perm x ys)) (Perm.swap x y ys),
  )

  pub insertion_sort-perm : (xs : List ℕ) → Perm (insertion_sort xs) xs
  unfolding insertion_sort
  insertion_sort-perm [] = Perm.nil
  insertion_sort-perm (x ∷ xs) =
      Perm.trans (insert-perm x (insertion_sort xs)) (Perm.cons x (insertion_sort-perm xs))

  insert-All :
      (b x : ℕ) (ys : List ℕ)
      → key b ≤ key x
      → All (λ y. key b ≤ key y) ys
      → All (λ y. key b ≤ key y) (insert x ys)
  unfolding insert
  insert-All b x [] h a = (h, tt)
  insert-All b x (y ∷ ys) h a = ground (arith, insert-All b x ys h a.1)

  All-mono :
      (a b : ℕ) (ys : List ℕ)
      → key a ≤ key b
      → All (λ y. key b ≤ key y) ys
      → All (λ y. key a ≤ key y) ys
  All-mono a b [] h p = tt
  All-mono a b (y ∷ ys) h p = (omega arith, All-mono a b ys h p.1)

  insert-Ascending : (x : ℕ) (ys : List ℕ) → Ascending key ys → Ascending key (insert x ys)
  unfolding insert
  insert-Ascending x [] h = (tt, tt)
  insert-Ascending x (y ∷ ys) h =
      ground (arith, insert-Ascending x ys h.1, insert-All y x ys, All-mono x y ys)

  pub insertion_sort-Ascending : (xs : List ℕ) → Ascending key (insertion_sort xs)
  unfolding insertion_sort
  insertion_sort-Ascending [] = tt
  insertion_sort-Ascending (x ∷ xs) =
      insert-Ascending x (insertion_sort xs) (insertion_sort-Ascending xs)

abbrev pub insertion : UnstableSort
insertion = record {
  sort_by_key = insertion_sort;
  sort-perm = insertion_sort-perm;
  sort-Ascending = insertion_sort-Ascending;
}
