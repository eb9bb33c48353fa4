-- ===== src/Embed/Scatter.antt =====
-- What the scatter loops write: after all chunks, the slot of each text holds its own value.
use mathlib.Core.List.{mem-cons, not-mem-nil, mem-cons_self, mem-cons_of_mem}
use mathlib.Core.List.Perm
use mathlib.Core.Logic.Or
use native.Mathlib.Bridge.{le_prop}
use bge_m3_embedding_server.Prelude.{
  elem, elem_of_mem, ℕ, zero, suc, ◌+◌, ◌≤◌, ◌<◌, ◌≡◌, refl, ap, ap₂, ◌⊎◌, ◌∙◌, inl, inr, true,
  some, List, [], ◌∷◌, ◌++◌, map, Mem, Perm, arith, ◌==◌, ==_iff, Bool-cases, All, length,
  get_elem?, set, range_from, length-set, get_elem?-set_self, get_elem?-set_ne, lt→ltb,
}
use bge_m3_embedding_server.AppError.{Result, ok}
use bge_m3_embedding_server.Embed.Types.{scatter}

mem-range_from : (s n j : ℕ) → s ≤ j → j < s + n → Mem j (range_from s n)
mem-range_from s zero j h k = absurd (omega arith)
mem-range_from s (suc n) j h k = elim (Bool-cases (s == j)) [
  | inl e ↦ rw ((==_iff s j).0 e) mem-cons_self
  | inr e ↦ mem-cons_of_mem s (mem-range_from (suc s) n j (ground arith) (omega arith))
]

pub lt_of_mem_range : (s n j : ℕ) → Mem j (range_from s n) → j < s + n
lt_of_mem_range s zero j m = absurd (not-mem-nil m)
lt_of_mem_range s (suc n) j m =
    Or.elim le_prop (mem-cons.0 m) (λ e. omega arith)
      (λ r. omega (arith, lt_of_mem_range (suc s) n j r))

some_inj {ℓ} : {A : Type ℓ} {a b : A} → some a ≡ some b → a ≡ b
some_inj e = cc

in_range : (n m : ℕ) (is : List ℕ) → m ≡ n → All (λ i. i < n) is → All (λ i. i < m) is
in_range n m [] e a = tt
in_range n m (i ∷ is) e a = (omega arith, in_range n m is e a.1)

module _ {ℓ} {T : Type ℓ} (g : ℕ → T) where
  -- Every listed slot is given its value.
  abbrev pub write_all : List ℕ → List T → List T
  write_all [] slots = slots
  write_all (i ∷ is) slots = write_all is (set slots i (g i))

  pub length-write_all : (is : List ℕ) (slots : List T) → length (write_all is slots) ≡ length slots
  length-write_all [] slots = refl
  length-write_all (i ∷ is) slots =
      length-write_all is (set slots i (g i)) ∙ length-set slots i (g i)

  pub write_all-append :
      (xs ys : List ℕ) (slots : List T)
      → write_all (xs ++ ys) slots ≡ write_all ys (write_all xs slots)
  write_all-append [] ys slots = refl
  write_all-append (x ∷ xs) ys slots = write_all-append xs ys (set slots x (g x))

  after_set :
      (slots : List T) (i j : ℕ)
      → j < length slots
      → (i ≡ j) ⊎ (get_elem? slots j ≡ some (g j))
      → get_elem? (set slots i (g i)) j ≡ some (g j)
  after_set slots i j h (inl e) = rw e (get_elem?-set_self slots j (g j) h)
  after_set slots i j h (inr e) = elim (Bool-cases (i == j)) [
    | inl eq ↦ rw ((==_iff i j).0 eq) (get_elem?-set_self slots j (g j) h)
    | inr ne ↦ get_elem?-set_ne slots i j (g i) (ground arith) ∙ e
  ]

  kept :
      (is : List ℕ) (slots : List T) (j : ℕ)
      → j < length slots
      → get_elem? slots j ≡ some (g j)
      → get_elem? (write_all is slots) j ≡ some (g j)
  kept [] slots j h e = e
  kept (i ∷ is) slots j h e =
      kept is (set slots i (g i)) j (omega (arith, length-set slots i (g i)))
        (after_set slots i j h (inr e))

  written :
      (is : List ℕ) (slots : List T) (j : ℕ)
      → j < length slots
      → elem j is ≡ true
      → get_elem? (write_all is slots) j ≡ some (g j)
  written [] slots j h e = cc
  written (i ∷ is) slots j h e = elim (Bool-cases (i == j)) [
    | inl eq ↦
        kept is (set slots i (g i)) j (omega (arith, length-set slots i (g i)))
          (after_set slots i j h (inl ((==_iff i j).0 eq)))
    | inr ne ↦
        written is (set slots i (g i)) j (omega (arith, length-set slots i (g i))) (rw ne at e)
  ]

  pub list_of_elems :
      (xs : List T) (start n : ℕ)
      → length xs ≡ n
      → ((j : ℕ) → j < n → get_elem? xs j ≡ some (g (start + j)))
      → xs ≡ map g (range_from start n)
  list_of_elems [] start zero e h = refl
  list_of_elems [] start (suc n) e h = absurd (omega arith)
  list_of_elems (x ∷ xs) start zero e h = absurd (omega arith)
  list_of_elems (x ∷ xs) start (suc n) e h =
      ap₂ ◌∷◌ (some_inj (h 0 (omega arith)) ∙ ap g (omega arith)) (
        list_of_elems xs (suc start) n (omega arith)
          (λ j k. h (suc j) (omega arith) ∙ ap (λ i. some (g i)) (omega arith)))

  -- Writing the value of each index of a permutation of `0..n` fills the slots in order.
  pub write_all-perm :
      (is : List ℕ) (slots : List T) (n : ℕ)
      → length slots ≡ n
      → Perm is (range_from 0 n)
      → write_all is slots ≡ map g (range_from 0 n)
  write_all-perm is slots n e p =
      list_of_elems (write_all is slots) 0 n (length-write_all is slots ∙ e) (λ j h.
        written is slots j (omega arith) (
          elem_of_mem j is
            (Perm.subset (Perm.symm p) j (mem-range_from 0 n j (omega arith) (omega arith))))
        ∙ ap (λ i. some (g i)) (omega arith))

  -- The rows from a position on hold the values of the chunk's texts.
  abbrev pub Rows : (ℕ → ℕ → Result T) → ℕ → List ℕ → Type ℓ
  Rows row_of pos [] = Unit
  Rows row_of pos (i ∷ is) = (row_of pos i ≡ ok (g i)) × Rows row_of (suc pos) is

  pub scatter-write_all :
      (row_of : ℕ → ℕ → Result T) (pos : ℕ) (is : List ℕ) (slots : List T)
      → Rows row_of pos is
      → All (λ i. i < length slots) is
      → scatter row_of pos is slots ≡ ok (write_all is slots)
  unfolding scatter
  scatter-write_all row_of pos [] slots r a = refl
  scatter-write_all row_of pos (i ∷ is) slots r a =
      rw (r.0, lt→ltb i (length slots) a.0)
        (scatter-write_all row_of (suc pos) is (set slots i (g i)) r.1
          (in_range (length slots) _ is (length-set slots i (g i)) a.1))
