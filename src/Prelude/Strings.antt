-- ===== src/Prelude/Strings.antt =====
-- Texts as lists of code points, and the `str` methods that the server uses on them.
use Prim.Native.Nat.{ℕ, zero, suc, ◌+◌, ◌/◌, ◌%◌}
use mathlib.Core.Path.{◌≡◌, refl}
use mathlib.Core.Logic.{inl, inr, ◌⊎◌}
use Prim.Native.Char.{code}
use Prim.Native.String.{String}
use mathlib.Core.Bool.{Bool, true, false, ◌&&◌, ◌||◌}
use mathlib.Core.Option.{Option, none, some}
use mathlib.Core.List.{List, [], ◌∷◌, ◌++◌, map, map-append}
use bge_m3_embedding_server.Prelude.Tests.{ltb, leb, ◌==◌, if◌then◌else◌, Bool-cases}

abbrev pub Text : Type 0
Text = List ℕ

-- A literal of the source.
abbrev pub codes : String → Text
codes String.[] = []
codes (String.◌∷◌ c s) = code c ∷ codes s

abbrev pub text_eq : Text → Text → Bool
text_eq [] [] = true
text_eq (c ∷ s) (d ∷ t) = (c == d) && text_eq s t
text_eq _ _ = false

-- What is left of the second text behind the first.
unfoldable pub strip_prefix : Text → Text → Option Text
strip_prefix [] t = some t
strip_prefix (c ∷ s) [] = none
strip_prefix (c ∷ s) (d ∷ t) = if c == d then strip_prefix s t else none

unfoldable pub starts_with : Text → Text → Bool
unfolding strip_prefix
starts_with s t = elim (strip_prefix s t) [ none ↦ false | some r ↦ true ]

-- `t.contains(s)`
unfoldable pub contains : Text → Text → Bool
unfolding starts_with
contains s [] = starts_with s []
contains s (c ∷ t) = starts_with s (c ∷ t) || contains s t

-- `to_lowercase`, on ASCII letters; other characters are left as they are.
unfoldable pub to_lowercase : Text → Text
to_lowercase = map (λ c. if leb b'A' c && leb c b'Z' then c + 32 else c)

-- `t.ends_with(s)`
unfoldable pub ends_with : Text → Text → Bool
ends_with s [] = text_eq s []
ends_with s (c ∷ t) = text_eq s (c ∷ t) || ends_with s t

abbrev pub is_digit : ℕ → Bool
is_digit c = leb b'0' c && leb c b'9'

-- Decimal digits, the most significant first. The fuel is the number itself, which has no more
-- digits than that above 0.
unfoldable pub decimal_from : ℕ → ℕ → Text → Text
decimal_from zero n acc = (b'0' + n % 10) ∷ acc
decimal_from (suc fuel) n acc =
    let rest = decimal_from fuel (n / 10) ((b'0' + n % 10) ∷ acc) in
    if ltb n 10 then (b'0' + n % 10) ∷ acc else rest

unfoldable pub decimal : ℕ → Text
unfolding decimal_from
decimal n = decimal_from n n []

pub or_right : (a b : Bool) → b ≡ true → (a || b) ≡ true
or_right true b h = refl
or_right false b h = h

pub or_split : (a b : Bool) → (a || b) ≡ true → (a ≡ true) ⊎ (b ≡ true)
or_split true b h = inl refl
or_split false b h = inr h

starts_with-append : (s t u : Text) → starts_with s t ≡ true → starts_with s (t ++ u) ≡ true
unfolding starts_with strip_prefix
starts_with-append [] t u h = refl
starts_with-append (c ∷ s) [] u h = cc h
starts_with-append (c ∷ s) (d ∷ t) u h = elim (Bool-cases (c == d)) [
  | inl e ↦
      rw (e, starts_with, strip_prefix)
        (starts_with-append s t u (rw (e, starts_with, strip_prefix) at h))
  | inr e ↦ cc (rw (e, starts_with, strip_prefix) at h)
]

contains-nil : (s u : Text) → contains s [] ≡ true → contains s u ≡ true
unfolding contains starts_with strip_prefix
contains-nil [] [] h = refl
contains-nil [] (c ∷ u) h = refl
contains-nil (c ∷ s) u h = cc h

-- A text that a part contains is contained in the whole.
pub contains-append_left : (s t u : Text) → contains s t ≡ true → contains s (t ++ u) ≡ true
unfolding contains
contains-append_left s [] u h = contains-nil s u h
contains-append_left s (c ∷ t) u h = elim (or_split (starts_with s (c ∷ t)) (contains s t) h) [
  | inl e ↦ rw (starts_with-append s (c ∷ t) u e) refl
  | inr e ↦ or_right _ _ (contains-append_left s t u e)
]

pub contains-append_right : (s t u : Text) → contains s u ≡ true → contains s (t ++ u) ≡ true
unfolding contains
contains-append_right s [] u h = h
contains-append_right s (c ∷ t) u h = or_right _ _ (contains-append_right s t u h)

pub to_lowercase-append : (s t : Text) → to_lowercase (s ++ t) ≡ to_lowercase s ++ to_lowercase t
unfolding to_lowercase
to_lowercase-append s t = map-append _ s t
