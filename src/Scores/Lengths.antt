-- ===== src/Scores/Lengths.antt =====
-- The distribution of the sequence lengths of a batch.
use mathlib.Core.List.{mem-cons, not-mem-nil, mem-cons_self, mem-cons_of_mem}
use mathlib.Core.List.Perm
use mathlib.Core.Logic.Or
use native.Mathlib.Bridge.{le_prop}
use bge_m3_embedding_server.Prelude.{
  ℕ, zero, suc, ◌-◌, ◌*◌, ◌/◌, ◌≤◌, ◌<◌, min, List, [], ◌∷◌, arith, Mem, length, get_or,
  UnstableSort,
}
use bge_m3_embedding_server.Scores.{
  sum, largest, smallest, SeqLenDistribution, seq_len_distribution,
}

sum-upper : (xs : List ℕ) → sum xs ≤ largest xs * length xs
sum-upper [] = omega arith
sum-upper (x ∷ xs) = grind (arith, sum-upper xs)

sum-lower : (x : ℕ) (xs : List ℕ) → smallest x xs * length (x ∷ xs) ≤ sum (x ∷ xs)
sum-lower x [] = omega arith
sum-lower x (y ∷ ys) = grind (arith, sum-lower y ys)

div-between : (a n lo hi : ℕ) → 0 < n → lo * n ≤ a → a ≤ hi * n → (lo ≤ a / n) × (a / n ≤ hi)
div-between a n lo hi p h k = (grind arith, grind arith)

at_least_smallest : (x : ℕ) (xs : List ℕ) (y : ℕ) → Mem y (x ∷ xs) → smallest x xs ≤ y
at_least_smallest x [] y m =
    Or.elim le_prop (mem-cons.0 m) (λ e. omega arith) (λ r. absurd (not-mem-nil r))
at_least_smallest x (z ∷ zs) y m =
    Or.elim le_prop (mem-cons.0 m) (λ e. omega arith)
      (λ r. omega (arith, at_least_smallest z zs y r))

at_most_largest : (xs : List ℕ) (y : ℕ) → Mem y xs → y ≤ largest xs
at_most_largest [] y m = absurd (not-mem-nil m)
at_most_largest (x ∷ xs) y m =
    Or.elim le_prop (mem-cons.0 m) (λ e. omega arith) (λ r. omega (arith, at_most_largest xs y r))

not_empty : (xs : List ℕ) (y : ℕ) → Mem y xs → 0 < length xs
not_empty [] y m = absurd (not-mem-nil m)
not_empty (x ∷ xs) y m = omega arith

get_or-mem : (xs : List ℕ) (i d : ℕ) → i < length xs → Mem (get_or xs i d) xs
get_or-mem [] i d h = absurd (omega arith)
get_or-mem (x ∷ xs) zero d h = mem-cons_self
get_or-mem (x ∷ xs) (suc i) d h = mem-cons_of_mem x (get_or-mem xs i d (omega arith))

-- The mean and the 95th percentile lie between the extremes.
abbrev pub Between : SeqLenDistribution → Type 0
Between d =
    (d.shortest ≤ d.mean) × (d.mean ≤ d.longest) × (d.shortest ≤ d.p95) × (d.p95 ≤ d.longest)

-- For a batch that is not empty, the mean and the 95th percentile of the lengths lie between the
-- minimum and the maximum, and the 95th percentile is the length of a text.
pub seq_len_distribution-Between :
    (s : UnstableSort) (x : ℕ) (xs : List ℕ)
    → Between (seq_len_distribution s (x ∷ xs)) × Mem (seq_len_distribution s (x ∷ xs)).p95 (x ∷ xs)
unfolding seq_len_distribution
seq_len_distribution-Between s x xs =
    let sorted = s.sort_by_key (λ n. n) (x ∷ xs) in
    let perm = s.sort-perm (λ n. n) (x ∷ xs) in
    let some_text = not_empty sorted x (Perm.subset (Perm.symm perm) x mem-cons_self) in
    let idx = min (length sorted * 95 / 100) (length sorted - 1) in
    let inside =
      Perm.subset perm (get_or sorted idx 0) (get_or-mem sorted idx 0 (omega (arith, some_text))) in
    let (lo, hi) =
      div-between (sum (x ∷ xs)) (length (x ∷ xs)) (smallest x xs) (largest (x ∷ xs)) (omega arith)
        (sum-lower x xs) (sum-upper (x ∷ xs)) in
    ((lo, hi, at_least_smallest x xs _ inside, at_most_largest (x ∷ xs) _ inside), inside)
