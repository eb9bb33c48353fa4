-- ===== src/Logging/Keys.antt =====
-- src/logging.rs: how each JSON line starts.
use bge_m3_embedding_server.Prelude.{
  ◌≡◌, refl, sym, ap, ◌∙◌, inl, inr, Bool, true, false, ◌&&◌, ◌||◌, Option, none, some, [], ◌∷◌,
  ◌++◌, ◌==◌, ==_iff, if◌then◌else◌, Text, codes, ends_with, Bool-cases,
}
use mathlib.Core.List.{append_assoc}
use bge_m3_embedding_server.Session.{Build}
use bge_m3_embedding_server.Logging.{
  after_brace, bge_module, build_variant, without_last, opening, with_key, prepend, prepend_build,
  prepend_module, json_line,
}

-- What follows the keys: a comma, where the object is not empty.
abbrev pub joined : Text → Text
joined [] = codes ","
joined (c ∷ t) = if c == b'}' then c ∷ t else b',' ∷ c ∷ t

only_right : (a b : Bool) → ((a && false) || b) ≡ true → b ≡ true
only_right true b h = h
only_right false b h = h

without_last-newline :
    (t : Text) → ends_with (codes "\n") t ≡ true → without_last t ++ codes "\n" ≡ t
unfolding without_last ends_with
without_last-newline [] h = cc h
without_last-newline (c ∷ []) h = elim (Bool-cases (b'\n' == c)) [
  | inl same ↦ ap (λ d. d ∷ []) ((==_iff b'\n' c).0 same)
  | inr other ↦ cc h
]
without_last-newline (c ∷ d ∷ t) h =
    ap (λ u. c ∷ u) (without_last-newline (d ∷ t) (only_right (b'\n' == c) _ h))

joined-newline : (t : Text) → joined t ++ codes "\n" ≡ joined (t ++ codes "\n")
joined-newline [] = refl
joined-newline (c ∷ t) = elim (Bool-cases (c == b'}')) [
  | inl brace ↦ rw brace refl
  | inr other ↦ rw other refl
]

module _ (key value : Text) where
  after_brace-joined : (t : Text) → after_brace key value t ≡ opening key value ++ joined t
  unfolding after_brace
  after_brace-joined [] = refl
  after_brace-joined (c ∷ t) = elim (Bool-cases (c == b'}')) [
    | inl brace ↦ rw brace (ap (λ d. opening key value ++ d ∷ t) (sym ((==_iff c b'}').0 brace)))
    | inr other ↦ rw other refl
  ]

  -- A line with the key, where it is an object.
  abbrev keyed : Text → Text
  keyed [] = []
  keyed (c ∷ t) = if c == b'{' then opening key value ++ joined t else c ∷ t

  with_key_lem : (t : Text) → with_key key value t ≡ keyed t
  unfolding with_key
  with_key_lem [] = refl
  with_key_lem (c ∷ t) = elim (Bool-cases (c == b'{')) [
    | inl brace ↦ rw brace (after_brace-joined t)
    | inr other ↦ rw other refl
  ]

  keyed-newline : (t : Text) → keyed t ++ codes "\n" ≡ keyed (t ++ codes "\n")
  keyed-newline [] = refl
  keyed-newline (c ∷ t) = elim (Bool-cases (c == b'{')) [
    | inl brace ↦ rw brace (
        append_assoc (opening key value) (joined t) (codes "\n")
        ∙ ap (λ u. opening key value ++ u) (joined-newline t))
    | inr other ↦ rw other refl
  ]

  prepend_lem : (buf : Text) → prepend key value buf ≡ keyed buf
  unfolding prepend
  prepend_lem buf = elim (Bool-cases (ends_with (codes "\n") buf)) [
    | inl newline ↦ rw newline (
        ap (λ t. t ++ codes "\n") (with_key_lem (without_last buf))
        ∙ keyed-newline (without_last buf)
        ∙ ap keyed (without_last-newline buf newline))
    | inr other ↦ rw other (with_key_lem buf)
  ]

-- The line of an object with both keys in front, and any other text as it is.
abbrev pub line_of : Build → Text → Text
line_of build [] = []
line_of build (c ∷ t) =
    if c == b'{'
    then codes "{\"bge_module\":\"server\",\"build\":\""
      ++ ((build_variant build ++ codes "\"") ++ joined t)
    else c ∷ t

abbrev pub line_if_any : Build → Option Text → Option Text
line_if_any build none = none
line_if_any build (some buf) = some (line_of build buf)

both_keys :
    (build : Build) (buf : Text)
    → keyed (codes "bge_module") bge_module (keyed (codes "build") (build_variant build) buf)
      ≡ line_of build buf
both_keys build [] = refl
both_keys build (c ∷ t) = elim (Bool-cases (c == b'{')) [
  | inl brace ↦ rw brace refl
  | inr other ↦ rw (other, other) refl
]

-- Whatever the JSON formatter writes, with a newline at its end or without: if it is a JSON object, the line starts with the module,
-- then the build, and goes on with what the formatter wrote; any other text is left as it is, and a failure stays a failure.
pub json_line-line_of :
    (build : Build) (inner : Option Text) → json_line build inner ≡ line_if_any build inner
unfolding json_line prepend_module prepend_build
json_line-line_of build none = refl
json_line-line_of build (some buf) = ap some (
    prepend_lem (codes "bge_module") bge_module (prepend (codes "build") (build_variant build) buf)
    ∙ ap (keyed (codes "bge_module") bge_module)
        (prepend_lem (codes "build") (build_variant build) buf)
    ∙ both_keys build buf)
