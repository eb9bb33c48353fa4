-- ===== src/Embed/Tensors.antt =====
-- The tensors of a chunk are the padded rows of its texts.
use bge_m3_embedding_server.Prelude.{
  ℕ, zero, suc, ◌-◌, ◌*◌, ◌≤◌, ◌<◌, ◌≡◌, refl, sym, ap, ◌∙◌, some, List, [], ◌∷◌, map, flatten,
  arith, All, length, get_elem?, get_or, replicate, length-append, longest,
}
use bge_m3_embedding_server.AppError.{ok}
use bge_m3_embedding_server.Runtime.{Runtime, Encoding}
use bge_m3_embedding_server.Tokenize.{
  pad_id, padded_ids, padded_mask, flat_rows, build_chunk_arrays,
}
use bge_m3_embedding_server.Embed.Types.{ModelVariant}
use bge_m3_embedding_server.Embed.Chunks.{chunk_max, lens_of}
use bge_m3_embedding_server.Embed.RowWise.{Row, HasWidth, tensor, Model, RowWise}

abbrev pub no_encoding : Encoding
no_encoding = record { ids = []; attention_mask = [] }

-- The encoding of a text.
abbrev pub encoding_at : List Encoding → ℕ → Encoding
encoding_at encodings i = get_or encodings i no_encoding

abbrev pub padded_row : List Encoding → ℕ → ℕ → Row
padded_row encodings n i =
    (padded_ids (encoding_at encodings i) n, padded_mask (encoding_at encodings i) n)

-- A mask entry for each token.
abbrev pub IsMasked : Encoding → Type 0
IsMasked enc = length enc.attention_mask ≡ length enc.ids

pub get_elem?-get_or {ℓ} :
    {A : Type ℓ} (xs : List A) (i : ℕ) (d : A)
    → i < length xs
    → get_elem? xs i ≡ some (get_or xs i d)
get_elem?-get_or [] i d h = absurd (omega arith)
get_elem?-get_or (x ∷ xs) zero d h = refl
get_elem?-get_or (x ∷ xs) (suc i) d h = get_elem?-get_or xs i d (omega arith)

get_or-lens_of :
    (encodings : List Encoding) (i : ℕ)
    → get_or (lens_of encodings) i 0 ≡ length (encoding_at encodings i).ids
get_or-lens_of [] i = refl
get_or-lens_of (e ∷ es) zero = refl
get_or-lens_of (e ∷ es) (suc i) = get_or-lens_of es i

pub IsMasked-at :
    (encodings : List Encoding) (i : ℕ)
    → All IsMasked encodings
    → IsMasked (encoding_at encodings i)
IsMasked-at [] i a = refl
IsMasked-at (e ∷ es) zero a = a.0
IsMasked-at (e ∷ es) (suc i) a = IsMasked-at es i a.1

pub length-replicate {ℓ} : {A : Type ℓ} (n : ℕ) (a : A) → length (replicate n a) ≡ n
length-replicate zero a = refl
length-replicate (suc n) a = ap suc (length-replicate n a)

-- The tokenizer puts the special tokens around each text, so an encoding has a token.
abbrev pub HasTokens : Encoding → Type 0
HasTokens enc = 0 < length enc.ids

pub HasTokens-at :
    (encodings : List Encoding) (i : ℕ)
    → All HasTokens encodings
    → i < length encodings
    → HasTokens (encoding_at encodings i)
HasTokens-at [] i a h = absurd (omega arith)
HasTokens-at (e ∷ es) zero a h = a.0
HasTokens-at (e ∷ es) (suc i) a h = HasTokens-at es i a.1 (omega arith)

-- A padded row of a text with tokens has tokens, and a mask entry for each.
pub padded_row-tokens :
    (encodings : List Encoding) (n i : ℕ)
    → IsMasked (encoding_at encodings i)
    → HasTokens (encoding_at encodings i)
    → (0 < length (padded_row encodings n i).0)
      × (length (padded_row encodings n i).1 ≡ length (padded_row encodings n i).0)
padded_row-tokens encodings n i masked tokens =
    let enc = encoding_at encodings i in
    let pad = n - length enc.ids in
    let ids = length-append enc.ids (replicate pad pad_id) in
    let mask = length-append enc.attention_mask (replicate pad 0) in
    (
      omega (arith, ids),
      omega (arith, ids, mask, length-replicate pad pad_id, length-replicate {A = ℕ} pad 0, masked),
    )

padded_row-HasWidth :
    (encodings : List Encoding) (n i : ℕ)
    → All IsMasked encodings
    → length (encoding_at encodings i).ids ≤ n
    → HasWidth n (padded_row encodings n i)
padded_row-HasWidth encodings n i a h =
    let enc = encoding_at encodings i in
    let pad = n - length enc.ids in
    (
      omega (arith, length-append enc.ids (replicate pad pad_id), length-replicate pad pad_id),
      omega (
        arith,
        length-append enc.attention_mask (replicate pad 0),
        length-replicate {A = ℕ} pad 0,
        IsMasked-at encodings i a,
      ),
    )

module _ (encodings : List Encoding) (n : ℕ) where
  abbrev pub rows_of : List ℕ → List Row
  rows_of = map (padded_row encodings n)

  flat_rows-flatten :
      (chunk : List ℕ)
      → All (λ i. i < length encodings) chunk
      → flat_rows encodings chunk n
        ≡ ok (flatten (map (λ r. r.0) (rows_of chunk)), flatten (map (λ r. r.1) (rows_of chunk)))
  unfolding flat_rows flatten
  flat_rows-flatten [] a = refl
  flat_rows-flatten (i ∷ is) a =
      rw (get_elem?-get_or encodings i no_encoding a.0, flat_rows-flatten is a.1)

  -- Every text of the chunk is at most as long as the tensor is wide.
  rows_of-HasWidth :
      (chunk : List ℕ)
      → All IsMasked encodings
      → All (λ i. length (encoding_at encodings i).ids ≤ n) chunk
      → All (HasWidth n) (rows_of chunk)
  rows_of-HasWidth [] a h = tt
  rows_of-HasWidth (i ∷ is) a h =
      (padded_row-HasWidth encodings n i a h.0, rows_of-HasWidth is a h.1)

-- No text of a chunk is longer than the chunk's padded length.
within_longest :
    (encodings : List Encoding) (n : ℕ) (chunk : List ℕ)
    → longest (lens_of encodings) chunk ≤ n
    → All (λ i. length (encoding_at encodings i).ids ≤ n) chunk
within_longest encodings n [] h = tt
within_longest encodings n (i ∷ is) h =
    (omega (arith, get_or-lens_of encodings i), within_longest encodings n is (omega arith))

length-flatten :
    (n : ℕ) (f : Row → List ℕ) (rows : List Row)
    → All (λ r. length (f r) ≡ n) rows
    → length (flatten (map f rows)) ≡ length rows * n
unfolding flatten
length-flatten n f [] a = omega arith
length-flatten n f (r ∷ rs) a =
    omega (arith, length-append (f r) (flatten (map f rs)), length-flatten n f rs a.1)

pub All-map {ℓ κ μ} :
    {A : Type ℓ} {P : A → Type κ} {Q : A → Type μ} (f : (a : A) → P a → Q a) (xs : List A)
    → All P xs
    → All Q xs
All-map f [] a = tt
All-map f (x ∷ xs) a = (f x a.0, All-map f xs a.1)

pub length-map {ℓ κ} :
    {A : Type ℓ} {B : Type κ} (f : A → B) (xs : List A) → length (map f xs) ≡ length xs
length-map f [] = refl
length-map f (x ∷ xs) = ap suc (length-map f xs)

-- A vector of rows of one width has the shape that it is given.
shape_of_rows :
    (rt : Runtime) (variant : ModelVariant) (m : Model rt)
    → RowWise rt variant m
    → (count n : ℕ) (f : Row → List ℕ) (rows : List Row) → count ≡ length rows
    → All (λ r. length (f r) ≡ n) rows
    → rt.from_shape_vec count n (flatten (map f rows)) ≡ ok (tensor n (map f rows))
shape_of_rows rt variant m laws count n f rows e a =
    rw (e, ← length-map f rows)
      (laws.shapes (length (map f rows)) n (flatten (map f rows))
        (length-flatten n f rows a ∙ ap (λ k. k * n) (sym (length-map f rows))))

-- The tensors of a chunk hold the padded rows of its texts, in the chunk's order.
pub build_chunk_arrays-rows :
    (rt : Runtime) (variant : ModelVariant) (m : Model rt)
    → RowWise rt variant m
    → (encodings : List Encoding) (chunk : List ℕ) → All IsMasked encodings
    → All (λ i. i < length encodings) chunk
    → let n = chunk_max (lens_of encodings) chunk in
      let rows = rows_of encodings n chunk in
      All (HasWidth n) rows
      × (build_chunk_arrays rt encodings chunk n
          ≡ ok (tensor n (map (λ r. r.0) rows), tensor n (map (λ r. r.1) rows)))
unfolding build_chunk_arrays
build_chunk_arrays-rows rt variant m laws encodings chunk masked inside =
    let n = chunk_max (lens_of encodings) chunk in
    let rows = rows_of encodings n chunk in
    let wide =
      rows_of-HasWidth encodings n chunk masked (within_longest encodings n chunk (omega arith)) in
    let count = sym (length-map (padded_row encodings n) chunk) in
    (
      wide,
      rw (
        flat_rows-flatten encodings n chunk inside,
        shape_of_rows rt variant m laws (length chunk) n (λ r. r.0) rows count
            (All-map (λ r h. h.0) rows wide),
        shape_of_rows rt variant m laws (length chunk) n (λ r. r.1) rows count
            (All-map (λ r h. h.1) rows wide),
      ),
    )
