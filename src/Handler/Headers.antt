-- ===== src/Handler/Headers.antt =====
-- src/handler/common.rs: the `X-*` headers of a request, for the log. A map is an association list; the
-- order of its keys is left out. The list of headers is what the iterator of `HeaderMap` yields, in its
-- order, which is not that of the request: it is arbitrary, with the values of a repeated name together.
use bge_m3_embedding_server.Prelude.{
  ◌≡◌, ◌≢◌, refl, sym, ap, subst, ◌∙◌, inl, inr, Bool, true, false, ◌&&◌, Option, none, some, List,
  [], ◌∷◌, ◌==◌, if◌then◌else◌, Text, codes, text_eq, text_eq_refl, text_eq→≡, starts_with,
  Bool-cases, Option-cases,
}

-- A header's name, in lower case, and its value where it is a text.
pub record Header : Type 0 where
  pub name : Text
  pub value : Option Text

-- `name_str.replace('-', "_")`
unfoldable pub underscored : Text → Text
underscored [] = []
underscored (c ∷ t) = (if c == b'-' then b'_' else c) ∷ underscored t

-- `BTreeMap::insert`
unfoldable pub insert : Text → Text → List (Text × Text) → List (Text × Text)
insert key val [] = (key, val) ∷ []
insert key val ((k, v) ∷ m) =
    let rest = insert key val m in if text_eq k key then (k, val) ∷ m else (k, v) ∷ rest

unfoldable pub add_header : Header → List (Text × Text) → List (Text × Text)
unfolding insert underscored
add_header h m =
    if starts_with (codes "x-") h.name
    then elim h.value [ none ↦ m | some val ↦ insert (underscored h.name) val m ]
    else m

unfoldable pub collect_from : List Header → List (Text × Text) → List (Text × Text)
unfolding add_header
collect_from [] m = m
collect_from (h ∷ hs) m = collect_from hs (add_header h m)

unfoldable pub collect_x_headers : List Header → List (Text × Text)
unfolding collect_from
collect_x_headers headers = collect_from headers []

abbrev pub value_at : Text → List (Text × Text) → Option Text
value_at key [] = none
value_at key ((k, v) ∷ m) = if text_eq k key then some v else value_at key m

-- The value that a header gives a key.
abbrev given : Text → Header → Option Text
given key h =
    if starts_with (codes "x-") h.name && text_eq (underscored h.name) key then h.value else none

abbrev or_else : Option Text → Option Text → Option Text
or_else none o = o
or_else (some v) o = some v

-- The value of the last header of the list that gives the key one.
abbrev pub last_given : Text → List Header → Option Text
last_given key [] = none
last_given key (h ∷ hs) = or_else (last_given key hs) (given key h)

or_else_assoc : (a b c : Option Text) → or_else (or_else a b) c ≡ or_else a (or_else b c)
or_else_assoc none b c = refl
or_else_assoc (some v) b c = refl

if_absorb :
    (b : Bool) (x y z : Option Text) → (if b then x else z) ≡ (if b then x else if b then y else z)
if_absorb true x y z = refl
if_absorb false x y z = refl

-- Two different keys are not both the one that is looked up.
if_swap :
    (l k key : Text) (x y z : Option Text)
    → text_eq l k ≡ false
    → (if text_eq l key then y else if text_eq k key then x else z)
      ≡ (if text_eq k key then x else if text_eq l key then y else z)
if_swap l k key x y z differ = elim (Bool-cases (text_eq l key)) [
  | inr other ↦ rw other refl
  | inl first ↦ elim (Bool-cases (text_eq k key)) [
    | inr other ↦ rw (first, other) refl
    | inl second ↦
        let together : l ≡ k = text_eq→≡ l key first ∙ sym (text_eq→≡ k key second) in
        absurd (false_not_true (sym differ ∙ ap (text_eq l) (sym together) ∙ text_eq_refl l))
  ]
]
  where
    false_not_true : false ≢ true
    false_not_true h = cc h

value_at-insert :
    (key k val : Text) (m : List (Text × Text))
    → value_at key (insert k val m) ≡ (if text_eq k key then some val else value_at key m)
unfolding insert
value_at-insert key k val [] = refl
value_at-insert key k val ((l, v) ∷ m) = elim (Bool-cases (text_eq l k)) [
  | inl same ↦ rw same (
      subst
        (λ x.
          (if text_eq l key then some val else value_at key m)
          ≡ (if text_eq x key then some val else if text_eq l key then some v else value_at key m))
        (text_eq→≡ l k same) (if_absorb (text_eq l key) (some val) (some v) (value_at key m)))
  | inr other ↦ rw other (
      ap (λ r. if text_eq l key then some v else r) (value_at-insert key k val m)
      ∙ if_swap l k key (some val) (some v) (value_at key m) other)
]

value_at-add_header :
    (key : Text) (h : Header) (m : List (Text × Text))
    → value_at key (add_header h m) ≡ or_else (given key h) (value_at key m)
unfolding add_header
value_at-add_header key h m = elim (Bool-cases (starts_with (codes "x-") h.name)) [
  | inr other ↦ rw other refl
  | inl x ↦ elim (Option-cases h.value) [
    | inl missing ↦ elim (Bool-cases (text_eq (underscored h.name) key)) [
      | inl this ↦ rw (x, missing, this) refl
      | inr other ↦ rw (x, missing, other) refl
    ]
    | inr (val, is) ↦ elim (Bool-cases (text_eq (underscored h.name) key)) [
      | inl this ↦ rw (x, is, this) (value_at-insert key (underscored h.name) val m ∙ rw this refl)
      | inr other ↦
          rw (x, is, other) (value_at-insert key (underscored h.name) val m ∙ rw other refl)
    ]
  ]
]

collect_from_lem :
    (key : Text) (hs : List Header) (m : List (Text × Text))
    → value_at key (collect_from hs m) ≡ or_else (last_given key hs) (value_at key m)
unfolding collect_from
collect_from_lem key [] m = refl
collect_from_lem key (h ∷ hs) m =
    collect_from_lem key hs (add_header h m)
    ∙ ap (or_else (last_given key hs)) (value_at-add_header key h m)
    ∙ sym (or_else_assoc (last_given key hs) (given key h) (value_at key m))

or_else-none : (o : Option Text) → or_else o none ≡ o
or_else-none none = refl
or_else-none (some v) = refl

-- The map has for each key the value of the last header of the list whose name starts with `x-` and is the key
-- with dashes for some of the underscores, among those whose value is a text, and nothing for any other key.
pub collect_x_headers-last_given :
    (headers : List Header) (key : Text)
    → value_at key (collect_x_headers headers) ≡ last_given key headers
unfolding collect_x_headers
collect_x_headers-last_given headers key =
    collect_from_lem key headers [] ∙ or_else-none (last_given key headers)
