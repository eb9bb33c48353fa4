-- ===== src/Embed/Toy.antt =====
-- A small runtime that meets the assumptions: numbers for floats, texts tokenized into their code
-- points, and a pooled vector that sums the masked tokens of a row.
use bge_m3_embedding_server.Prelude.{
  ℕ, zero, suc, ◌+◌, ◌*◌, ◌<◌, ◌≡◌, refl, ap, max, List, [], ◌∷◌, ◌++◌, map, flatten, arith, All,
  ltb, length, get_elem?, some, replicate, insertion,
}
use bge_m3_embedding_server.Prelude.Floats.{whole}
use bge_m3_embedding_server.AppError.{ok}
use bge_m3_embedding_server.Runtime.{Runtime, Array2}
use bge_m3_embedding_server.Tokenize.{pad_id}
use bge_m3_embedding_server.Embed.Types.{fp32, fp16, int8}
use bge_m3_embedding_server.Embed.RowWise.{Row, HasWidth, tensor, Model, RowWise}

abbrev take_row : ℕ → List ℕ → List ℕ
take_row zero v = []
take_row (suc n) [] = []
take_row (suc n) (x ∷ v) = x ∷ take_row n v

abbrev drop_row : ℕ → List ℕ → List ℕ
drop_row zero v = v
drop_row (suc n) [] = []
drop_row (suc n) (x ∷ v) = drop_row n v

abbrev split_rows : ℕ → ℕ → List ℕ → List (List ℕ)
split_rows zero cols v = []
split_rows (suc n) cols v = take_row cols v ∷ split_rows n cols (drop_row cols v)

abbrev zip_rows : List (List ℕ) → List (List ℕ) → List Row
zip_rows [] bs = []
zip_rows (a ∷ xs) [] = []
zip_rows (a ∷ xs) (b ∷ bs) = (a, b) ∷ zip_rows xs bs

abbrev rows_in : Array2 → List (List ℕ)
rows_in a = split_rows a.rows a.cols a.flat

abbrev dot_ℕ : List ℕ → List ℕ → ℕ
dot_ℕ [] ys = 0
dot_ℕ (x ∷ xs) [] = 0
dot_ℕ (x ∷ xs) (y ∷ ys) = x * y + dot_ℕ xs ys

abbrev toy_model_pooled : Row → List ℕ
toy_model_pooled r = dot_ℕ r.0 r.1 ∷ []

abbrev toy_model_hidden : Row → List (List ℕ)
toy_model_hidden r = map (λ id. id ∷ []) r.0

abbrev pub toy : Runtime
toy = record {
  floats = whole;
  sort = insertion;
  F32 = ℕ;
  zero_f32 = 0;
  add = ◌+◌;
  mul = ◌*◌;
  div = λ x y. x;
  sqrt = λ x. x;
  max_f32 = max;
  is_positive = λ x. ltb 0 x;
  dot = dot_ℕ;
  from_shape_vec = λ rows cols v. ok (record { rows = rows; cols = cols; flat = v });
  Tokenizer = Unit;
  encode_batch = λ t texts. (
    ok (map (λ text. record { ids = text; attention_mask = replicate (length text) 1 }) texts),
    3,
  );
  Session = ℕ;
  Outputs = List Row;
  run = λ s ids mask. ((ok (zip_rows (rows_in ids) (rows_in mask)), 7), suc s);
  sentence_embedding = λ rows. ok (map toy_model_pooled rows);
  token_embeddings = λ rows. ok (map toy_model_hidden rows);
  last_hidden_state = λ rows. ok (map toy_model_hidden rows);
  sparse_weight = 2 ∷ [];
  sparse_bias = 1;
}

abbrev pub toy_model : Model toy
toy_model = record { pooled = toy_model_pooled; hidden = toy_model_hidden }

take_row-append : (cols : ℕ) (a v : List ℕ) → length a ≡ cols → take_row cols (a ++ v) ≡ a
take_row-append zero [] v e = refl
take_row-append zero (x ∷ a) v e = absurd (omega arith)
take_row-append (suc n) [] v e = absurd (omega arith)
take_row-append (suc n) (x ∷ a) v e = ap (◌∷◌ x) (take_row-append n a v (omega arith))

drop_row-append : (cols : ℕ) (a v : List ℕ) → length a ≡ cols → drop_row cols (a ++ v) ≡ v
drop_row-append zero [] v e = refl
drop_row-append zero (x ∷ a) v e = absurd (omega arith)
drop_row-append (suc n) [] v e = absurd (omega arith)
drop_row-append (suc n) (x ∷ a) v e = drop_row-append n a v (omega arith)

-- The rows of a tensor can be read back.
zip-split :
    (cols : ℕ) (rows : List Row)
    → All (HasWidth cols) rows
    → zip_rows
        (rows_in (tensor cols (map (λ r. r.0) rows)))
        (rows_in (tensor cols (map (λ r. r.1) rows)))
      ≡ rows
unfolding flatten
zip-split cols [] a = refl
zip-split cols ((ids, mask) ∷ rs) ((wide_ids, wide_mask), a) =
    let rest_ids = flatten (map (λ r. r.0) rs) in
    let rest_mask = flatten (map (λ r. r.1) rs) in
    rw
      (
        take_row-append cols ids rest_ids wide_ids,
        drop_row-append cols ids rest_ids wide_ids,
        take_row-append cols mask rest_mask wide_mask,
        drop_row-append cols mask rest_mask wide_mask,
      )
      (ap (◌∷◌ (ids, mask)) (zip-split cols rs a))

dot-padded :
    (ids mask : List ℕ) (k : ℕ)
    → length mask ≡ length ids
    → dot_ℕ (ids ++ replicate k pad_id) (mask ++ replicate k 0) ≡ dot_ℕ ids mask
dot-padded [] [] zero e = refl
dot-padded [] [] (suc k) e = omega (arith, dot-padded [] [] k refl)
dot-padded [] (m ∷ mask) k e = absurd (omega arith)
dot-padded (id ∷ ids) [] k e = absurd (omega arith)
dot-padded (id ∷ ids) (m ∷ mask) k e = ap (◌+◌ (id * m)) (dot-padded ids mask k (omega arith))

hidden-padded :
    (ids pads : List ℕ) (j : ℕ)
    → j < length ids
    → get_elem? (map (λ id. id ∷ []) (ids ++ pads)) j ≡ get_elem? (map (λ id. id ∷ []) ids) j
hidden-padded [] pads j h = absurd (omega arith)
hidden-padded (id ∷ ids) pads zero h = refl
hidden-padded (id ∷ ids) pads (suc j) h = hidden-padded ids pads j (omega arith)

hidden-length : (ids : List ℕ) → length (map (λ id. id ∷ []) ids) ≡ length ids
hidden-length [] = refl
hidden-length (id ∷ ids) = ap suc (hidden-length ids)

pub toy-RowWise : RowWise toy fp32 toy_model
toy-RowWise = record {
  shapes = λ rows cols v e. refl;
  runs = λ s cols rows a.
      (rows, 7, suc s, ap (λ out. ((ok out, 7), suc s)) (zip-split cols rows a), (refl, refl));
  pools_first = λ r t e. tt;
  pooled_pad = λ r k t e. ap (λ d. d ∷ []) (dot-padded r.0 r.1 k e);
  hidden_pad = λ r k j e h. hidden-padded r.0 (replicate k pad_id) j h;
  hidden_all = λ r e. hidden-length r.0;
}

-- The same, with the first hidden state as the pooled vector.
abbrev first_of : List (List ℕ) → List ℕ
first_of [] = []
first_of (h ∷ hs) = h

abbrev pub toy_first : Model toy
toy_first = record { pooled = λ r. first_of (toy_model_hidden r); hidden = toy_model_hidden }

first_found :
    (ids : List ℕ)
    → 0 < length ids
    → get_elem? (map (λ id. id ∷ []) ids) 0 ≡ some (first_of (map (λ id. id ∷ []) ids))
first_found [] h = absurd (omega arith)
first_found (id ∷ ids) h = refl

first_padded :
    (ids pads : List ℕ)
    → 0 < length ids
    → first_of (map (λ id. id ∷ []) (ids ++ pads)) ≡ first_of (map (λ id. id ∷ []) ids)
first_padded [] pads h = absurd (omega arith)
first_padded (id ∷ ids) pads h = refl

pub toy_first-RowWise : RowWise toy fp16 toy_first
toy_first-RowWise = record {
  shapes = λ rows cols v e. refl;
  runs = λ s cols rows a.
      (rows, 7, suc s, ap (λ out. ((ok out, 7), suc s)) (zip-split cols rows a), refl);
  pools_first = λ r t e. first_found r.0 t;
  pooled_pad = λ r k t e. first_padded r.0 (replicate k pad_id) t;
  hidden_pad = λ r k j e h. hidden-padded r.0 (replicate k pad_id) j h;
  hidden_all = λ r e. hidden-length r.0;
}

pub toy_first-RowWise_int8 : RowWise toy int8 toy_first
toy_first-RowWise_int8 = record {
  shapes = λ rows cols v e. refl;
  runs = λ s cols rows a.
      (rows, 7, suc s, ap (λ out. ((ok out, 7), suc s)) (zip-split cols rows a), refl);
  pools_first = λ r t e. first_found r.0 t;
  pooled_pad = λ r k t e. first_padded r.0 (replicate k pad_id) t;
  hidden_pad = λ r k j e h. hidden-padded r.0 (replicate k pad_id) j h;
  hidden_all = λ r e. hidden-length r.0;
}
