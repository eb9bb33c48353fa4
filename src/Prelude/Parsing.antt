-- ===== src/Prelude/Parsing.antt =====
-- The `str` methods that take a text apart, and what they give on texts that are put together.
use Prim.Native.Nat.{ℕ, ◌<◌}
use mathlib.Core.Path.{◌≡◌, refl, ap, sym}
use mathlib.Core.Logic.{inl, inr}
use mathlib.Core.Bool.{Bool, true, false, ◌&&◌, ◌||◌}
use mathlib.Core.Option.{Option, none, some, some_inj}
use mathlib.Core.List.{List, [], ◌∷◌, ◌++◌}
use native.Mathlib.Omega.{arith}
use bge_m3_embedding_server.Prelude.Tests.{
  leb, ◌==◌, ==_iff, if◌then◌else◌, Bool-cases, Option-cases,
}
use bge_m3_embedding_server.Prelude.Lists.{length, is_empty, length-append}
use bge_m3_embedding_server.Prelude.Strings.{Text, text_eq, starts_with, strip_prefix, is_digit}

-- `t.strip_suffix(s)`
unfoldable pub strip_suffix : Text → Text → Option Text
strip_suffix s [] = if text_eq s [] then some [] else none
strip_suffix s (c ∷ t) =
    let rest = strip_suffix s t in
    if text_eq s (c ∷ t) then some [] else elim rest [ none ↦ none | some p ↦ some (c ∷ p) ]

-- The text from the last occurrence of `s` on: `rfind`, and the slice from what it gives.
unfoldable pub rfind_tail : Text → Text → Option Text
rfind_tail s [] = if starts_with s [] then some [] else none
rfind_tail s (c ∷ t) = elim (rfind_tail s t) [
  | some r ↦ some r
  | none ↦ if starts_with s (c ∷ t) then some (c ∷ t) else none
]

-- `t.split_once(c)`
unfoldable pub split_once : ℕ → Text → Option (Text × Text)
split_once c [] = none
split_once c (d ∷ t) =
    let rest = split_once c t in
    if c == d then some ([], t) else elim rest [ none ↦ none | some r ↦ some (d ∷ r.0, r.1) ]

-- `char::is_whitespace`
unfoldable pub is_whitespace : ℕ → Bool
is_whitespace c =
    (leb 9 c && leb c 13)
    || (c == 32)
    || (c == 133)
    || (c == 160)
    || (c == 5760)
    || (leb 8192 c && leb c 8202)
    || (c == 8232)
    || (c == 8233)
    || (c == 8239)
    || (c == 8287)
    || (c == 12288)

unfoldable pub trim_start : Text → Text
unfolding is_whitespace
trim_start [] = []
trim_start (c ∷ t) = let rest = trim_start t in if is_whitespace c then rest else c ∷ t

unfoldable pub trim_end : Text → Text
unfolding is_whitespace
trim_end [] = []
trim_end (c ∷ t) =
    let rest = trim_end t in if is_whitespace c && is_empty rest then [] else c ∷ rest

unfoldable pub trim : Text → Text
unfolding trim_start trim_end
trim t = trim_end (trim_start t)

-- `t.split(c)`, as the first part and the later ones.
unfoldable pub split_parts : ℕ → Text → Text × List Text
split_parts c [] = ([], [])
split_parts c (d ∷ t) =
    let rest = split_parts c t in if c == d then ([], rest.0 ∷ rest.1) else (d ∷ rest.0, rest.1)

unfoldable pub split : ℕ → Text → List Text
unfolding split_parts
split c t = let (first, later) = split_parts c t in first ∷ later

abbrev pub all_digits : Text → Bool
all_digits [] = true
all_digits (c ∷ t) = is_digit c && all_digits t

pub text_eq_refl : (s : Text) → text_eq s s ≡ true
text_eq_refl [] = refl
text_eq_refl (c ∷ s) = ground (arith, text_eq_refl s)

pub and_both : (a b : Bool) → (a && b) ≡ true → (a ≡ true) × (b ≡ true)
and_both true b h = (refl, h)
and_both false b h = cc h

pub text_eq→≡ : (s t : Text) → text_eq s t ≡ true → s ≡ t
text_eq→≡ [] [] h = refl
text_eq→≡ [] (d ∷ t) h = cc h
text_eq→≡ (c ∷ s) [] h = cc h
text_eq→≡ (c ∷ s) (d ∷ t) h =
    let (head, tail) = and_both (c == d) (text_eq s t) h in
    rw ((==_iff c d).0 head, text_eq→≡ s t tail) refl

text_eq-longer : (s t : Text) → length s < length t → text_eq s t ≡ false
text_eq-longer s t h = elim (Bool-cases (text_eq s t)) [
  | inl e ↦ absurd (omega (arith, ap length (text_eq→≡ s t e)))
  | inr e ↦ e
]

strip_suffix-whole : (s : Text) → strip_suffix s s ≡ some []
unfolding strip_suffix
strip_suffix-whole [] = refl
strip_suffix-whole (c ∷ s) = rw (text_eq_refl (c ∷ s)) refl

-- A suffix that a text ends in is taken off.
pub strip_suffix-append : (p s : Text) → strip_suffix s (p ++ s) ≡ some p
unfolding strip_suffix
strip_suffix-append [] s = strip_suffix-whole s
strip_suffix-append (c ∷ p) s =
    rw (text_eq-longer s (c ∷ (p ++ s)) (omega (arith, length-append p s)), strip_suffix-append p s)
      refl

-- What is taken off was the end of the text.
pub strip_suffix_sound : (s t p : Text) → strip_suffix s t ≡ some p → t ≡ p ++ s
unfolding strip_suffix
strip_suffix_sound s [] p h = elim (Bool-cases (text_eq s [])) [
  | inl e ↦
      let nil : [] ≡ p = some_inj.0 (rw (e, strip_suffix) at h) in
      rw (sym nil, text_eq→≡ s [] e) refl
  | inr e ↦ cc (rw (e, strip_suffix) at h)
]
strip_suffix_sound s (c ∷ t) p h = elim (Bool-cases (text_eq s (c ∷ t))) [
  | inl e ↦
      let nil : [] ≡ p = some_inj.0 (rw (e, strip_suffix) at h) in
      rw (sym nil, text_eq→≡ s (c ∷ t) e) refl
  | inr e ↦ elim (Option-cases (strip_suffix s t)) [
    | inl f ↦ cc (rw (e, f, strip_suffix) at h)
    | inr f ↦
        let head : c ∷ f.0 ≡ p = some_inj.0 (rw (e, f.1, strip_suffix) at h) in
        rw (sym head, strip_suffix_sound s t f.0 f.1) refl
  ]
]

pub all_digits-append :
    (s t : Text) → all_digits s ≡ true → all_digits t ≡ true → all_digits (s ++ t) ≡ true
all_digits-append [] t h k = k
all_digits-append (c ∷ s) t h k =
    let (digit, others) = and_both (is_digit c) (all_digits s) h in
    rw (digit, all_digits-append s t others k) refl

-- A text of digits holds no text that begins with another character.
pub rfind_tail-digits :
    (c : ℕ) (s t : Text) → is_digit c ≡ false → all_digits t ≡ true → rfind_tail (c ∷ s) t ≡ none
unfolding rfind_tail starts_with strip_prefix
rfind_tail-digits c s [] n h = refl
rfind_tail-digits c s (d ∷ t) n h =
    let (digit, others) = and_both (is_digit d) (all_digits t) h in
    let other : (c == d) ≡ false = elim (Bool-cases (c == d)) [
      | inl e ↦ cc (rw (sym ((==_iff c d).0 e)) at digit, n)
      | inr e ↦ e
    ] in
    rw (rfind_tail-digits c s t n others, starts_with, strip_prefix, other) refl

-- The last occurrence in the end of a text is the last one in the whole.
pub rfind_tail-append : (s p t r : Text) → rfind_tail s t ≡ some r → rfind_tail s (p ++ t) ≡ some r
unfolding rfind_tail
rfind_tail-append s [] t r h = h
rfind_tail-append s (c ∷ p) t r h = rw (rfind_tail-append s p t r h) refl
