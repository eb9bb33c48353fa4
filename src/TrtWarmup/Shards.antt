-- ===== src/TrtWarmup/Shards.antt =====
-- The shards of the workers share the shapes out.
use bge_m3_embedding_server.Prelude.{
  ℕ, zero, suc, ◌+◌, ◌%◌, ◌≤◌, ◌<◌, ◌≡◌, refl, ap, ◌∙◌, ◌⊎◌, inl, inr, Bool, false, List, [], ◌∷◌,
  arith, ◌==◌, leb, if◌then◌else◌, Bool-cases,
}
use bge_m3_embedding_server.TrtWarmup.{Shape, stride, shard_shapes}

-- How many shapes of a list pass a test.
abbrev pub count : (Shape → Bool) → List Shape → ℕ
count test [] = 0
count test (s ∷ ss) = (if test s then 1 else 0) + count test ss

-- The same, over the shards of the workers from `i` on.
abbrev pub count_shards : (Shape → Bool) → (ℕ → List Shape) → ℕ → ℕ → ℕ
count_shards test shard i zero = 0
count_shards test shard i (suc n) = count test (shard i) + count_shards test shard (suc i) n

stride-count :
    (test : Shape → Bool) (s : Shape) (ss : List Shape) (i w n : ℕ)
    → count test (stride (s ∷ ss) i w n)
      ≡ (if i % n == w then (if test s then 1 else 0) else 0) + count test (stride ss (suc i) w n)
unfolding stride
stride-count test s ss i w n = elim (Bool-cases (i % n == w)) [
  | inl e ↦ rw (e, stride) refl
  | inr e ↦ rw (e, stride) (omega arith)
]

-- One number among consecutive ones.
one_of : ℕ → ℕ → ℕ → ℕ → ℕ
one_of k r from zero = 0
one_of k r from (suc n) = (if k == from then r else 0) + one_of k r (suc from) n

one_of-outside : (k r from n : ℕ) → (k < from) ⊎ (from + n ≤ k) → one_of k r from n ≡ 0
unfolding one_of
one_of-outside k r from zero h = refl
one_of-outside k r from (suc n) h = ground (arith, one_of-outside k r (suc from) n (ground arith))

one_of-inside : (k r from n : ℕ) → from ≤ k → k < from + n → one_of k r from n ≡ r
unfolding one_of
one_of-inside k r from zero h h' = absurd (omega arith)
one_of-inside k r from (suc n) h h' = elim (Bool-cases (k == from)) [
  | inl e ↦ rw e (omega (arith, one_of-outside k r (suc from) n (inl (ground arith))))
  | inr e ↦ rw e (omega (arith, one_of-inside k r (suc from) n (ground arith) (omega arith)))
]

strides-count :
    (test : Shape → Bool) (s : Shape) (ss : List Shape) (i n from m : ℕ)
    → count_shards test (λ w. stride (s ∷ ss) i w n) from m
      ≡ one_of (i % n) (if test s then 1 else 0) from m
        + count_shards test (λ w. stride ss (suc i) w n) from m
unfolding one_of
strides-count test s ss i n from zero = refl
strides-count test s ss i n from (suc m) =
    omega (arith, stride-count test s ss i from n, strides-count test s ss i n (suc from) m)

strides_share :
    (test : Shape → Bool) (ss : List Shape) (i n : ℕ)
    → 0 < n
    → count_shards test (λ w. stride ss i w n) 0 n ≡ count test ss
unfolding stride
strides_share test [] i n h = nothing 0 n
  where
    nothing : (from m : ℕ) → count_shards test (λ w. stride [] i w n) from m ≡ 0
    nothing from zero = refl
    nothing from (suc m) = omega (arith, nothing (suc from) m)
strides_share test (s ∷ ss) i n h = omega (
  arith,
  strides-count test s ss i n 0 n,
  strides_share test ss (suc i) n h,
  one_of-inside (i % n) (if test s then 1 else 0) 0 n (omega arith) (grind arith),
)

count_shards-ext :
    (test : Shape → Bool) (f g : ℕ → List Shape)
    → ((w : ℕ) → f w ≡ g w)
    → (from m : ℕ) → count_shards test f from m ≡ count_shards test g from m
count_shards-ext test f g e from zero = refl
count_shards-ext test f g e from (suc m) =
    omega (arith, ap (count test) (e from), count_shards-ext test f g e (suc from) m)

many : (n : ℕ) → leb (suc (suc n)) 1 ≡ false
many n = ground arith

-- Whatever is counted, the shards of all workers together have as much of it as the shapes: no shape is
-- lost, and none is warmed twice.
pub shard_shapes-count :
    (test : Shape → Bool) (shapes : List Shape) (n : ℕ)
    → 0 < n
    → count_shards test (λ w. shard_shapes shapes w n) 0 n ≡ count test shapes
unfolding shard_shapes
shard_shapes-count test shapes zero h = absurd (omega arith)
shard_shapes-count test shapes (suc zero) h = omega arith
shard_shapes-count test shapes (suc (suc n)) h =
    count_shards-ext test (λ w. shard_shapes shapes w (suc (suc n)))
      (λ w. stride shapes 0 w (suc (suc n))) (λ w. rw (many n, shard_shapes) refl) 0 (suc (suc n))
    ∙ strides_share test shapes 0 (suc (suc n)) h
