-- ===== src/TrtWarmup/Coverage.antt =====
-- The shapes that are run to check a cached profile bound all the others.
use bge_m3_embedding_server.Prelude.{
  ℕ, ◌+◌, ◌≤◌, ◌≡◌, refl, sym, subst, ◌⊎◌, inl, inr, min, max, Bool, true, false, ◌||◌, List, [],
  ◌∷◌, ◌++◌, map, arith, ◌==◌, ==_iff, Bool-cases, All, length, length-append, or_right, or_split,
}
use bge_m3_embedding_server.Scores.{smallest, largest}
use bge_m3_embedding_server.Embed.Tensors.{All-map}
use bge_m3_embedding_server.TrtWarmup.{
  Shape, same_shape, has_shape, find_shape, push_new, coverage_check_shapes,
}

-- Some shape of the first list has at most the shape's batch, and so on for each extreme.
abbrev pub IsBounded : List Shape → Shape → Type 0
IsBounded checks s =
    (a : Shape) × (b : Shape) × (c : Shape) × (d : Shape) × (has_shape checks a ≡ true)
    × (has_shape checks b ≡ true)
    × (has_shape checks c ≡ true)
    × (has_shape checks d ≡ true)
    × (a.0 ≤ s.0)
    × (s.0 ≤ b.0)
    × (c.1 ≤ s.1)
    × (s.1 ≤ d.1)

abbrev any_shape : (Shape → Bool) → List Shape → Bool
any_shape test [] = false
any_shape test (s ∷ ss) = test s || any_shape test ss

pub same_shape_refl : (s : Shape) → same_shape s s ≡ true
same_shape_refl (b, q) = ground arith

has_shape-head : (s : Shape) (ss : List Shape) → has_shape (s ∷ ss) s ≡ true
has_shape-head s ss = rw (same_shape_refl s) refl

has_shape-tail :
    (x : Shape) (ss : List Shape) (s : Shape) → has_shape ss s ≡ true → has_shape (x ∷ ss) s ≡ true
has_shape-tail x ss s h = or_right (same_shape x s) (has_shape ss s) h

pub has_shape-append :
    (xs ys : List Shape) (t : Shape) → has_shape (xs ++ ys) t ≡ (has_shape xs t || has_shape ys t)
has_shape-append [] ys t = refl
has_shape-append (x ∷ xs) ys t = ground (arith, has_shape-append xs ys t)

push_new-keeps :
    (ss result : List Shape) (t : Shape)
    → has_shape result t ≡ true
    → has_shape (push_new ss result) t ≡ true
unfolding push_new
push_new-keeps [] result t h = h
push_new-keeps (s ∷ ss) result t h = elim (Bool-cases (has_shape result s)) [
  | inl e ↦ rw (e, push_new) (push_new-keeps ss result t h)
  | inr e ↦
      rw (e, push_new)
        (push_new-keeps ss (result ++ s ∷ []) t (rw (has_shape-append result (s ∷ []) t, h) refl))
]

pub same_has_shape :
    (result : List Shape) (s t : Shape)
    → same_shape s t ≡ true
    → has_shape result s ≡ true
    → has_shape result t ≡ true
same_has_shape [] s t e h = cc h
same_has_shape (x ∷ xs) s t e h = ground (arith, same_has_shape xs s t e)

push_new-adds :
    (ss result : List Shape) (t : Shape)
    → has_shape ss t ≡ true
    → has_shape (push_new ss result) t ≡ true
unfolding push_new
push_new-adds [] result t h = cc h
push_new-adds (s ∷ ss) result t h = elim (or_split (same_shape s t) (has_shape ss t) h) [
  | inr later ↦ push_new-adds ss _ t later
  | inl same ↦ elim (Bool-cases (has_shape result s)) [
    | inl e ↦ rw (e, push_new) (push_new-keeps ss result t (same_has_shape result s t same e))
    | inr e ↦
        rw (e, push_new)
          (push_new-keeps ss (result ++ s ∷ []) t (
            rw (has_shape-append result (s ∷ []) t)
              (or_right (has_shape result t) (has_shape (s ∷ []) t) (rw same refl))))
  ]
]

find_shape-test :
    (test : Shape → Bool) (d : Shape) (ss : List Shape)
    → any_shape test ss ≡ true
    → test (find_shape test d ss) ≡ true
unfolding find_shape
find_shape-test test d [] h = cc h
find_shape-test test d (s ∷ ss) h = elim (Bool-cases (test s)) [
  | inl e ↦ rw (e, find_shape) e
  | inr e ↦ rw (e, find_shape) (find_shape-test test d ss (rw e at h))
]

min-cases : (a b : ℕ) → (min a b ≡ a) ⊎ (min a b ≡ b)
min-cases a b = ground arith

max-cases : (a b : ℕ) → (max a b ≡ a) ⊎ (max a b ≡ b)
max-cases a b = ground arith

same_number : (a : ℕ) → (a == a) ≡ true
same_number a = ground arith

module _ (key : Shape → ℕ) where
  smallest-attained :
      (s : Shape) (ss : List Shape)
      → any_shape (λ x. key x == smallest (key s) (map key ss)) (s ∷ ss) ≡ true
  smallest-attained s [] = ground arith
  smallest-attained s (t ∷ ts) = elim (min-cases (key s) (smallest (key t) (map key ts))) [
    | inl e ↦ rw e (rw (same_number (key s)) refl)
    | inr e ↦
        or_right _ _ (
          subst (λ m. any_shape (λ x. key x == m) (t ∷ ts) ≡ true) (sym e) (smallest-attained t ts))
  ]

  largest-attained :
      (s : Shape) (ss : List Shape)
      → any_shape (λ x. key x == largest (map key (s ∷ ss))) (s ∷ ss) ≡ true
  largest-attained s [] = ground arith
  largest-attained s (t ∷ ts) = elim (max-cases (key s) (largest (map key (t ∷ ts)))) [
    | inl e ↦ rw e (rw (same_number (key s)) refl)
    | inr e ↦
        or_right _ _
          (subst (λ m. any_shape (λ x. key x == m) (t ∷ ts) ≡ true) (sym e) (largest-attained t ts))
  ]

within :
    (s : Shape) (ss : List Shape) (m n p q : ℕ)
    → m ≤ smallest s.0 (map (λ x. x.0) ss)
    → largest (map (λ x. x.0) (s ∷ ss)) ≤ n
    → p ≤ smallest s.1 (map (λ x. x.1) ss)
    → largest (map (λ x. x.1) (s ∷ ss)) ≤ q
    → All (λ x. (m ≤ x.0) × (x.0 ≤ n) × (p ≤ x.1) × (x.1 ≤ q)) (s ∷ ss)
within s [] m n p q hm hn hp hq = ((hm, omega arith, hp, omega arith), tt)
within s (t ∷ ts) m n p q hm hn hp hq = (
  (omega arith, omega arith, omega arith, omega arith),
  within t ts m n p q (omega arith) (omega arith) (omega arith) (omega arith),
)

length-push_new : (ss result : List Shape) → length (push_new ss result) ≤ length ss + length result
unfolding push_new
length-push_new [] result = omega arith
length-push_new (s ∷ ss) result = elim (Bool-cases (has_shape result s)) [
  | inl e ↦ rw (e, push_new) (omega (arith, length-push_new ss result))
  | inr e ↦
      rw (e, push_new)
        (omega (arith, length-push_new ss (result ++ s ∷ []), length-append result (s ∷ [])))
]

-- The check shapes are at most four.
pub coverage_check_shapes-few : (shapes : List Shape) → length (coverage_check_shapes shapes) ≤ 4
unfolding coverage_check_shapes
coverage_check_shapes-few [] = omega arith
coverage_check_shapes-few (s ∷ ss) = length-push_new _ []

-- Each shape is bounded by check shapes on each side of each dimension.
pub coverage_check_shapes-IsBounded :
    (shapes : List Shape) → All (IsBounded (coverage_check_shapes shapes)) shapes
unfolding coverage_check_shapes
coverage_check_shapes-IsBounded [] = tt
coverage_check_shapes-IsBounded (s ∷ ss) =
    let shapes : List Shape = s ∷ ss in
    let batch : Shape → ℕ = λ x. x.0 in
    let seq : Shape → ℕ = λ x. x.1 in
    let a = find_shape (λ x. x.0 == smallest s.0 (map batch ss)) s shapes in
    let b = find_shape (λ x. x.0 == largest (map batch shapes)) s shapes in
    let c = find_shape (λ x. x.1 == smallest s.1 (map seq ss)) s shapes in
    let d = find_shape (λ x. x.1 == largest (map seq shapes)) s shapes in
    let picked : List Shape = a ∷ b ∷ c ∷ d ∷ [] in
    let at_a = (==_iff _ _).0 (
      find_shape-test (λ x. x.0 == smallest s.0 (map batch ss)) s shapes
        (smallest-attained batch s ss)) in
    let at_b = (==_iff _ _).0 (
      find_shape-test (λ x. x.0 == largest (map batch shapes)) s shapes
        (largest-attained batch s ss)) in
    let at_c = (==_iff _ _).0 (
      find_shape-test (λ x. x.1 == smallest s.1 (map seq ss)) s shapes
        (smallest-attained seq s ss)) in
    let at_d = (==_iff _ _).0 (
      find_shape-test (λ x. x.1 == largest (map seq shapes)) s shapes
        (largest-attained seq s ss)) in
    All-map
      (λ x (lo_batch, hi_batch, lo_seq, hi_seq). (
        a,
        b,
        c,
        d,
        push_new-adds picked [] a (has_shape-head a (b ∷ c ∷ d ∷ [])),
        push_new-adds picked [] b
            (has_shape-tail a (b ∷ c ∷ d ∷ []) b (has_shape-head b (c ∷ d ∷ []))),
        push_new-adds picked [] c (
            has_shape-tail a (b ∷ c ∷ d ∷ []) c
              (has_shape-tail b (c ∷ d ∷ []) c (has_shape-head c (d ∷ [])))),
        push_new-adds picked [] d (
            has_shape-tail a (b ∷ c ∷ d ∷ []) d (
              has_shape-tail b (c ∷ d ∷ []) d (has_shape-tail c (d ∷ []) d (has_shape-head d [])))),
        lo_batch,
        hi_batch,
        lo_seq,
        hi_seq,
      ))
      shapes
      (within s ss a.0 b.0 c.1 d.1 (omega (arith, at_a)) (omega (arith, at_b)) (omega (arith, at_c))
        (omega (arith, at_d)))
