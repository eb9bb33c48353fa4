-- ===== src/Probe/Corpus.antt =====
-- src/probe/corpus.rs: texts of about a number of tokens, from those of a corpus.
use bge_m3_embedding_server.Prelude.{
  ℕ, zero, suc, ◌+◌, ◌-◌, ◌*◌, ◌/◌, ◌%◌, ◌^◌, ◌≤◌, ◌<◌, min, max, ◌≡◌, refl, ◌⊎◌, inl, inr,
  Option-cases, Bool, true, false, some, List, [], ◌∷◌, ◌++◌, arith, ◌==◌, ltb, if◌then◌else◌,
  length, length-append, get_elem?, Text, codes, All, Bool-cases, lt→ltb, ==_iff,
}
use bge_m3_embedding_server.AppError.{Result, ok, panic, ◌>>=◌, expect}

-- The bytes of a character, and of a text, in UTF-8.
abbrev pub len_utf8 : ℕ → ℕ
len_utf8 c = if ltb c 128 then 1 else if ltb c 2048 then 2 else if ltb c 65536 then 3 else 4

abbrev pub byte_len : Text → ℕ
byte_len [] = 0
byte_len (c ∷ t) = len_utf8 c + byte_len t

-- `&t[..n]` panics where `n` is inside a character, or behind the text.
unfoldable pub slice_to : ℕ → Text → Result Text
slice_to n [] = if n == 0 then ok [] else panic
slice_to n (c ∷ t) =
    let rest = slice_to (n - len_utf8 c) t in
    if n == 0 then ok [] else if ltb n (len_utf8 c) then panic else rest >>= λ r. ok (c ∷ r)

-- `base.repeat(n)`
unfoldable pub repeat : Text → ℕ → Text
repeat base zero = []
repeat base (suc n) = base ++ repeat base n

abbrev pub saturating_mul_usize : ℕ → ℕ → ℕ
saturating_mul_usize x y = min (x * y) (2 ^ 64 - 1)

unfoldable pub target_chars : ℕ → ℕ
target_chars target_seq = max (saturating_mul_usize target_seq 4) 16

-- The text that is made of one of the corpus.
unfoldable pub synthesize : Text → ℕ → Result Text
unfolding slice_to repeat
synthesize base target =
    let repeated = repeat base (max (target / max (byte_len base) 1) 2 + 1) in
    if ltb target (byte_len repeated) then slice_to target repeated else ok repeated

-- The texts from the `i`-th on. An empty corpus panics: the remainder by 0, or the index.
unfoldable pub synthesize_from : List Text → ℕ → ℕ → ℕ → Result (List Text)
unfolding synthesize
synthesize_from corpus target i zero = ok []
synthesize_from corpus target i (suc n) = expect (get_elem? corpus (i % length corpus)) >>= λ base.
    synthesize base target >>= λ text.
    synthesize_from corpus target (suc i) n >>= λ texts. ok (text ∷ texts)

unfoldable pub synthesize_texts : List Text → ℕ → ℕ → Result (List Text)
unfolding synthesize_from target_chars
synthesize_texts corpus batch target_seq = synthesize_from corpus (target_chars target_seq) 0 batch

-- The text of `load_probe_texts` where the corpus file has none.
abbrev pub fallback_text : Text
fallback_text =
    codes "The embedding server startup probe synthesizes texts to measure workspace cost."

-- `load_probe_texts`, on what the file of the corpus holds.
unfoldable pub load_probe_texts : List Text → List Text
load_probe_texts [] = fallback_text ∷ []
load_probe_texts (t ∷ ts) = t ∷ ts

abbrev pub IsAscii : Text → Type 0
IsAscii = All (λ c. c < 128)

IsAscii-append : (s t : Text) → IsAscii s → IsAscii t → IsAscii (s ++ t)
IsAscii-append [] t h k = k
IsAscii-append (c ∷ s) t h k = (h.0, IsAscii-append s t h.1 k)

IsAscii-repeat : (base : Text) (n : ℕ) → IsAscii base → IsAscii (repeat base n)
unfolding repeat
IsAscii-repeat base zero h = tt
IsAscii-repeat base (suc n) h = IsAscii-append base (repeat base n) h (IsAscii-repeat base n h)

byte_len-ascii : (t : Text) → IsAscii t → byte_len t ≡ length t
byte_len-ascii [] h = refl
byte_len-ascii (c ∷ t) h = rw (lt→ltb c 128 h.0, byte_len-ascii t h.1) (omega arith)

length-repeat : (base : Text) (n : ℕ) → length (repeat base n) ≡ n * length base
unfolding repeat
length-repeat base zero = omega arith
length-repeat base (suc n) = grind (arith, length-append base (repeat base n), length-repeat base n)

slice_to-ascii :
    (n : ℕ) (t : Text)
    → IsAscii t
    → n ≤ length t
    → (r : Text) × (slice_to n t ≡ ok r) × (length r ≡ n)
unfolding slice_to
slice_to-ascii n [] h b = ([], rw ((==_iff n 0).1 (omega arith)) refl, omega arith)
slice_to-ascii n (c ∷ t) h b = elim (Bool-cases (n == 0)) [
  | inl e ↦ rw e ([], refl, omega (arith, (==_iff n 0).0 e))
  | inr e ↦
      let more : 1 ≤ n = ground arith in
      let one : ltb n 1 ≡ false = ground arith in
      let (r, s, l) = slice_to-ascii (n - 1) t h.1 (omega arith) in
      rw (e, lt→ltb c 128 h.0, one, s) (c ∷ r, refl, omega arith)
]

repeat_enough : (target len : ℕ) → 0 < len → target < (max (target / len) 2 + 1) * len
repeat_enough target len h = grind arith

synthesize-ascii :
    (base : Text) (target : ℕ)
    → IsAscii base
    → 0 < length base
    → (r : Text) × (synthesize base target ≡ ok r) × (length r ≡ target)
unfolding synthesize
synthesize-ascii base target h p =
    let count = max (target / max (byte_len base) 1) 2 + 1 in
    let bytes : max (byte_len base) 1 ≡ length base = omega (arith, byte_len-ascii base h) in
    let long : target < length (repeat base count) =
      rw (length-repeat base count, bytes) (repeat_enough target (length base) p) in
    let ascii = IsAscii-repeat base count h in
    let (r, s, l) = slice_to-ascii target (repeat base count) ascii (omega arith) in
    (r, rw (synthesize, byte_len-ascii (repeat base count) ascii, lt→ltb target _ long, s) refl, l)

-- A text, or a panic: never an error.
abbrev pub Ends : {A : Type 0} → Result A → Type 0
Ends {A = A} r = (r ≡ panic) ⊎ ((a : A) × (r ≡ ok a))

slice_to-Ends : (target : ℕ) (t : Text) → Ends (slice_to target t)
unfolding slice_to
slice_to-Ends n [] = elim (Bool-cases (n == 0)) [
  | inl e ↦ rw (e, slice_to) (inr ([], refl))
  | inr e ↦ rw (e, slice_to) (inl refl)
]
slice_to-Ends n (c ∷ t) = elim (Bool-cases (n == 0)) [
  | inl e ↦ rw (e, slice_to) (inr ([], refl))
  | inr e ↦ elim (Bool-cases (ltb n (len_utf8 c))) [
    | inl g ↦ rw (e, g, slice_to) (inl refl)
    | inr g ↦ elim (slice_to-Ends (n - len_utf8 c) t) [
      | inl h ↦ rw (e, g, h, slice_to) (inl refl)
      | inr (r, h) ↦ rw (e, g, h, slice_to) (inr (c ∷ r, refl))
    ]
  ]
]

synthesize-Ends : (base : Text) (target : ℕ) → Ends (synthesize base target)
unfolding synthesize
synthesize-Ends base target =
    let repeated = repeat base (max (target / max (byte_len base) 1) 2 + 1) in
    elim (Bool-cases (ltb target (byte_len repeated))) [
      | inl e ↦ rw (e, synthesize) (slice_to-Ends target repeated)
      | inr e ↦ rw (e, synthesize) (inr (repeated, refl))
    ]

synthesize_from-Ends :
    (corpus : List Text) (target i n : ℕ) → Ends (synthesize_from corpus target i n)
unfolding synthesize_from
synthesize_from-Ends corpus target i zero = inr ([], refl)
synthesize_from-Ends corpus target i (suc n) =
    elim (Option-cases (get_elem? corpus (i % length corpus))) [
      | inl e ↦ rw (e, synthesize_from) (inl refl)
      | inr (base, e) ↦ elim (synthesize-Ends base target) [
        | inl g ↦ rw (e, g, synthesize_from) (inl refl)
        | inr (text, g) ↦ elim (synthesize_from-Ends corpus target (suc i) n) [
          | inl h ↦ rw (e, g, h, synthesize_from) (inl refl)
          | inr (texts, h) ↦ rw (e, g, h, synthesize_from) (inr (text ∷ texts, refl))
        ]
      ]
    ]

pub synthesize_texts-Ends :
    (corpus : List Text) (batch target_seq : ℕ) → Ends (synthesize_texts corpus batch target_seq)
unfolding synthesize_texts
synthesize_texts-Ends corpus batch target_seq =
    synthesize_from-Ends corpus (target_chars target_seq) 0 batch

abbrev pub IsUsable : Text → Type 0
IsUsable base = IsAscii base × (0 < length base)

get_elem?-All :
    (P : Text → Type 0) (ts : List Text) (i : ℕ)
    → All P ts
    → i < length ts
    → (t : Text) × (get_elem? ts i ≡ some t) × P t
get_elem?-All P [] i a h = absurd (omega arith)
get_elem?-All P (t ∷ ts) zero a h = (t, refl, a.0)
get_elem?-All P (t ∷ ts) (suc i) a h = get_elem?-All P ts i a.1 (omega arith)

synthesize_from-ascii :
    (corpus : List Text) (target i n : ℕ)
    → All IsUsable corpus
    → 0 < length corpus
    → (texts : List Text) × (synthesize_from corpus target i n ≡ ok texts)
      × (length texts ≡ n)
      × All (λ t. length t ≡ target) texts
unfolding synthesize_from
synthesize_from-ascii corpus target i zero a p = ([], refl, omega arith, tt)
synthesize_from-ascii corpus target i (suc n) a p =
    let (base, g, usable) = get_elem?-All IsUsable corpus (i % length corpus) a (grind arith) in
    let (text, s, l) = synthesize-ascii base target usable.0 usable.1 in
    let (texts, s', l', others) = synthesize_from-ascii corpus target (suc i) n a p in
    rw (g, s, s') (text ∷ texts, refl, omega arith, (l, others))

-- From a corpus of texts in ASCII that are not empty, and with one text at least, the texts of the
-- probe are made without a panic: as many as asked for, each of exactly four characters for each
-- token, and of sixteen at least.
pub synthesize_texts-ascii :
    (corpus : List Text) (batch target_seq : ℕ)
    → All IsUsable corpus
    → 0 < length corpus
    → (texts : List Text) × (synthesize_texts corpus batch target_seq ≡ ok texts)
      × (length texts ≡ batch)
      × All (λ t. length t ≡ target_chars target_seq) texts
unfolding synthesize_texts
synthesize_texts-ascii corpus batch target_seq a p =
    synthesize_from-ascii corpus (target_chars target_seq) 0 batch a p

unfoldable pub all_ascii : Text → Bool
all_ascii [] = true
all_ascii (c ∷ t) = if ltb c 128 then all_ascii t else false

pub all_ascii-IsAscii : (t : Text) → all_ascii t ≡ true → IsAscii t
unfolding all_ascii
all_ascii-IsAscii [] h = tt
all_ascii-IsAscii (c ∷ t) h = elim (Bool-cases (ltb c 128)) [
  | inl e ↦ (ground arith, all_ascii-IsAscii t (rw (e, all_ascii) at h))
  | inr e ↦ cc (rw (e, all_ascii) at h)
]

-- The corpus of the probe is never empty, and usable if what the file holds is.
pub load_probe_texts-IsUsable :
    (corpus_file : List Text)
    → All IsUsable corpus_file
    → All IsUsable (load_probe_texts corpus_file) × (0 < length (load_probe_texts corpus_file))
unfolding load_probe_texts all_ascii
load_probe_texts-IsUsable [] a =
    (((all_ascii-IsAscii fallback_text refl, omega arith), tt), omega arith)
load_probe_texts-IsUsable (t ∷ ts) a = (a, omega arith)
