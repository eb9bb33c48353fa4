-- ===== src/Config/Shapes.antt =====
-- src/config.rs: the warmup shapes are read as they are written.
use bge_m3_embedding_server.Prelude.{
  ℕ, zero, suc, ◌+◌, ◌/◌, ◌%◌, ◌^◌, ◌≤◌, ◌<◌, ◌≡◌, refl, sym, ap, ◌∙◌, inl, inr, true, false, some,
  List, [], ◌∷◌, ◌++◌, arith, ltb, ◌==◌, is_empty, Text, is_digit, decimal, decimal_from, split,
  split_parts, split_once, trim, trim_start, trim_end, is_whitespace, All, All-append, map,
  Bool-cases, lt→ltb, ==_iff, all_digits, and_both,
}
use mathlib.Core.List.{append_assoc}
use bge_m3_embedding_server.TrtWarmup.{Shape}
use bge_m3_embedding_server.Config.{
  parse_digits, parse_uint, usize_bound, parse_shape, parse_shapes, parse_trt_warmup_shapes,
}

-- A shape, and a list of them, as `BGE_M3_TRT_WARMUP_SHAPES` has them.
abbrev pub print_shape : Shape → Text
print_shape (b, l) = decimal b ++ b'x' ∷ decimal l

abbrev pub print_shapes : Shape → List Shape → Text
print_shapes s [] = print_shape s
print_shapes s (t ∷ ts) = print_shape s ++ b',' ∷ print_shapes t ts

digit_of : (r : ℕ) → r < 10 → is_digit (b'0' + r) ≡ true
digit_of r h = ground arith

parse_digits-decimal_from :
    (fuel n : ℕ) (acc : Text)
    → n ≤ fuel
    → parse_digits (decimal_from fuel n acc) 0 ≡ parse_digits acc n
unfolding decimal_from parse_digits
parse_digits-decimal_from zero n acc h =
    rw (digit_of (n % 10) (grind arith)) (ap (parse_digits acc) (omega arith))
parse_digits-decimal_from (suc fuel) n acc h = elim (Bool-cases (ltb n 10)) [
  | inl e ↦
      let small : n < 10 = ground arith in
      rw (e, digit_of (n % 10) (grind arith), parse_digits) (ap (parse_digits acc) (omega arith))
  | inr e ↦
      let large : 10 ≤ n = ground arith in
      rw e (
        parse_digits-decimal_from fuel (n / 10) ((b'0' + n % 10) ∷ acc) (omega arith)
        ∙ rw (digit_of (n % 10) (grind arith), parse_digits) (ap (parse_digits acc) (omega arith)))
]

-- The digits of a number are digits, and at least one.
IsNumeral : Text → Type 0
IsNumeral t = (d : ℕ) × (ds : Text) × (t ≡ d ∷ ds) × (is_digit d ≡ true) × (all_digits ds ≡ true)

decimal_from-IsNumeral :
    (fuel n : ℕ) (acc : Text) → all_digits acc ≡ true → IsNumeral (decimal_from fuel n acc)
unfolding decimal_from IsNumeral
decimal_from-IsNumeral zero n acc h = (_, acc, refl, digit_of (n % 10) (grind arith), h)
decimal_from-IsNumeral (suc fuel) n acc h = elim (Bool-cases (ltb n 10)) [
  | inl e ↦ rw e (_, acc, refl, digit_of (n % 10) (grind arith), h)
  | inr e ↦ rw e (
      decimal_from-IsNumeral fuel (n / 10) ((b'0' + n % 10) ∷ acc)
        (rw (digit_of (n % 10) (grind arith), h) refl))
]

decimal-IsNumeral : (n : ℕ) → IsNumeral (decimal n)
unfolding decimal
decimal-IsNumeral n = decimal_from-IsNumeral n n [] refl

read_back : (n : ℕ) → parse_digits (decimal n) 0 ≡ some n
unfolding decimal parse_digits
read_back n = parse_digits-decimal_from n n [] (omega arith)

-- A number that fits 64 bits is read as it is written.
parse_uint-decimal : (n : ℕ) → n < 2 ^ 64 → parse_uint usize_bound (decimal n) ≡ some n
unfolding parse_uint IsNumeral decimal
parse_uint-decimal n h =
    let (d, ds, e, digit, others) = decimal-IsNumeral n in
    let no_sign : (d == b'+') ≡ false = ground arith in
    let value : parse_digits (d ∷ ds) 0 ≡ some n =
      ap (λ t. parse_digits t 0) (sym e) ∙ read_back n in
    rw (e, parse_uint, no_sign, value, lt→ltb n (2 ^ 64) h) refl

-- A text without a character is not cut at it.
Lacks : ℕ → Text → Type 0
Lacks c = All (λ d. (c == d) ≡ false)

split_parts-append :
    (c : ℕ) (s t : Text)
    → Lacks c s
    → split_parts c (s ++ c ∷ t) ≡ (s, (split_parts c t).0 ∷ (split_parts c t).1)
unfolding split_parts Lacks
split_parts-append c [] t h = rw ((==_iff c c).1 refl) refl
split_parts-append c (d ∷ s) t h = rw (h.0, split_parts-append c s t h.1) refl

split_parts-whole : (c : ℕ) (s : Text) → Lacks c s → split_parts c s ≡ (s, [])
unfolding split_parts Lacks
split_parts-whole c [] h = refl
split_parts-whole c (d ∷ s) h = rw (h.0, split_parts-whole c s h.1) refl

split_once-append : (c : ℕ) (s t : Text) → Lacks c s → split_once c (s ++ c ∷ t) ≡ some (s, t)
unfolding split_once Lacks
split_once-append c [] t h = rw ((==_iff c c).1 refl) refl
split_once-append c (d ∷ s) t h = rw (h.0, split_once-append c s t h.1) refl

-- Without whitespace, there is nothing to trim.
IsInk : Text → Type 0
IsInk = All (λ c. is_whitespace c ≡ false)

trim_end-ink : (t : Text) → IsInk t → trim_end t ≡ t
unfolding trim_end IsInk
trim_end-ink [] h = refl
trim_end-ink (c ∷ t) h = rw (h.0, trim_end-ink t h.1) refl

trim-ink : (t : Text) → IsInk t → trim t ≡ t
unfolding trim trim_start IsInk
trim-ink [] h = trim_end-ink [] tt
trim-ink (c ∷ t) h = rw (h.0, trim_start) (trim_end-ink (c ∷ t) h)

-- What digits are not: whitespace, and the separators.
digit_ink : (d : ℕ) → is_digit d ≡ true → is_whitespace d ≡ false
unfolding is_whitespace
digit_ink d h = ground arith

digits-All :
    (P : ℕ → Type 0) (t : Text)
    → ((d : ℕ) → is_digit d ≡ true → P d)
    → all_digits t ≡ true
    → All P t
digits-All P [] k h = tt
digits-All P (c ∷ t) k h =
    let (digit, others) = and_both (is_digit c) (all_digits t) h in
    (k c digit, digits-All P t k others)

decimal-All : (P : ℕ → Type 0) (n : ℕ) → ((d : ℕ) → is_digit d ≡ true → P d) → All P (decimal n)
unfolding IsNumeral
decimal-All P n k =
    let (d, ds, e, digit, others) = decimal-IsNumeral n in
    rw e (k d digit, digits-All P ds k others)

digit_not : (c d : ℕ) → is_digit c ≡ false → is_digit d ≡ true → (c == d) ≡ false
digit_not c d n h = elim (Bool-cases (c == d)) [
  | inl e ↦ cc (ap is_digit ((==_iff c d).0 e), n, h)
  | inr e ↦ e
]

print_shape-All :
    (P : ℕ → Type 0) (s : Shape)
    → ((d : ℕ) → is_digit d ≡ true → P d)
    → P b'x'
    → All P (print_shape s)
print_shape-All P (b, l) k x =
    All-append P (decimal b) (b'x' ∷ decimal l) (decimal-All P b k) (x, decimal-All P l k)

-- Both numbers of the shape fit 64 bits.
abbrev pub IsSized : Shape → Type 0
IsSized s = (s.0 < 2 ^ 64) × (s.1 < 2 ^ 64)

parse_shape-print_shape : (s : Shape) → IsSized s → parse_shape (print_shape s) ≡ some s
unfolding parse_shape IsInk Lacks is_whitespace
parse_shape-print_shape (b, l) h =
    let ink : IsInk (print_shape (b, l)) = print_shape-All _ (b, l) digit_ink refl in
    let cut : split_once b'x' (print_shape (b, l)) ≡ some (decimal b, decimal l) =
      split_once-append b'x' (decimal b) (decimal l)
        (decimal-All _ b (λ d. digit_not b'x' d refl)) in
    rw
      (
        parse_shape,
        trim-ink (print_shape (b, l)) ink,
        cut,
        parse_uint-decimal b h.0,
        parse_uint-decimal l h.1,
      )
      refl

Lacks-print_shape : (s : Shape) → Lacks b',' (print_shape s)
unfolding Lacks
Lacks-print_shape s = print_shape-All _ s (λ d. digit_not b',' d refl) refl

split-print_shapes :
    (s : Shape) (ts : List Shape)
    → split b',' (print_shapes s ts) ≡ print_shape s ∷ map print_shape ts
unfolding split
split-print_shapes s [] =
    rw (split_parts-whole b',' (print_shape s) (Lacks-print_shape s), split) refl
split-print_shapes s (t ∷ ts) =
    rw (split_parts-append b',' (print_shape s) (print_shapes t ts) (Lacks-print_shape s), split)
      (ap (λ x. print_shape s ∷ x) (split-print_shapes t ts))

parse_shapes-map : (ss : List Shape) → All IsSized ss → parse_shapes (map print_shape ss) ≡ ss
unfolding parse_shapes
parse_shapes-map [] h = refl
parse_shapes-map (s ∷ ss) h =
    rw (map, parse_shapes, parse_shape-print_shape s h.0, parse_shapes-map ss h.1) refl

trim-begins : (c : ℕ) (t : Text) → is_whitespace c ≡ false → is_empty (trim (c ∷ t)) ≡ false
unfolding trim trim_start trim_end
trim-begins c t h = rw (h, trim, trim_start) (rw (h, trim_end) refl)

begins_with_digit : (n : ℕ) (t : Text) → is_empty (trim (decimal n ++ t)) ≡ false
unfolding IsNumeral
begins_with_digit n t =
    let (d, ds, e, digit, others) = decimal-IsNumeral n in
    rw e (trim-begins d (ds ++ t) (digit_ink d digit))

begins_with_shape : (s : Shape) (ts : List Shape) → is_empty (trim (print_shapes s ts)) ≡ false
begins_with_shape (b, l) [] = begins_with_digit b (b'x' ∷ decimal l)
begins_with_shape (b, l) (t ∷ ts) =
    rw (append_assoc (decimal b) (b'x' ∷ decimal l) (b',' ∷ print_shapes t ts))
      (begins_with_digit b (b'x' ∷ (decimal l ++ b',' ∷ print_shapes t ts)))

-- A list of warmup shapes that is not empty, and whose numbers fit 64 bits, is read from the
-- environment as it is written.
pub parse_trt_warmup_shapes-print_shapes :
    (s : Shape) (ts : List Shape)
    → All IsSized (s ∷ ts)
    → parse_trt_warmup_shapes (some (print_shapes s ts)) ≡ s ∷ ts
unfolding parse_trt_warmup_shapes
parse_trt_warmup_shapes-print_shapes s ts h =
    rw
      (
        begins_with_shape s ts,
        parse_trt_warmup_shapes,
        split-print_shapes s ts,
        parse_shapes-map (s ∷ ts) h,
      )
      refl
