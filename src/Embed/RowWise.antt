-- ===== src/Embed/RowWise.antt =====
-- What is assumed of the model behind a session: it embeds each row of a batch for itself, and
-- the padding behind a row does not change what it computes for the row's tokens. A row without a token
-- has no first hidden state.
use bge_m3_embedding_server.Prelude.{
  ℕ, ◌*◌, ◌<◌, ◌≡◌, List, ◌++◌, map, flatten, All, length, get_elem?, replicate, some,
}
use bge_m3_embedding_server.AppError.{ok}
use bge_m3_embedding_server.Runtime.{Runtime, Array2}
use bge_m3_embedding_server.Tokenize.{pad_id}
use bge_m3_embedding_server.Embed.Types.{ModelVariant, fp32, fp16, int8}

-- The token ids and the mask of a row.
abbrev pub Row : Type 0
Row = List ℕ × List ℕ

abbrev pub HasWidth : ℕ → Row → Type 0
HasWidth n r = (length r.0 ≡ n) × (length r.1 ≡ n)

-- A tensor of rows of one width.
abbrev pub tensor : ℕ → List (List ℕ) → Array2
tensor cols rows = record { rows = length rows; cols = cols; flat = flatten rows }

module _ (rt : Runtime) where
  open rt use {F32, Outputs}

  -- The pooled vector of a row, and the hidden states of its tokens.
  pub record Model : Type 0 where
    pub pooled : Row → List F32
    pub hidden : Row → List (List F32)

  -- The outputs of a run that the variant reads.
  abbrev pub Yields : ModelVariant → Model → Outputs → List Row → Type 0
  Yields fp32 m out rows =
      (rt.sentence_embedding out ≡ ok (map m.pooled rows))
      × (rt.token_embeddings out ≡ ok (map m.hidden rows))
  Yields fp16 m out rows = rt.last_hidden_state out ≡ ok (map m.hidden rows)
  Yields int8 m out rows = rt.last_hidden_state out ≡ ok (map m.hidden rows)

  -- Without a pooled output, the pooled vector is the hidden state of the first token.
  abbrev pub PoolsFirst : ModelVariant → Model → Row → Type 0
  PoolsFirst fp32 m r = Unit
  PoolsFirst fp16 m r = get_elem? (m.hidden r) 0 ≡ some (m.pooled r)
  PoolsFirst int8 m r = get_elem? (m.hidden r) 0 ≡ some (m.pooled r)

  pub record RowWise (variant : ModelVariant) (m : Model) : Type 0 where
    -- `from_shape_vec` takes a vector of the shape's size.
    pub shapes :
        (rows cols : ℕ) (v : List ℕ)
        → length v ≡ rows * cols
        → rt.from_shape_vec rows cols v ≡ ok (record { rows = rows; cols = cols; flat = v })
    pub runs :
        (s : rt.Session) (cols : ℕ) (rows : List Row)
        → All (HasWidth cols) rows
        → (out : Outputs) × (ms : ℕ) × (s' : rt.Session) × (rt.run s
              (tensor cols (map (λ r. r.0) rows))
              (tensor cols (map (λ r. r.1) rows))
            ≡ ((ok out, ms), s'))
          × Yields variant m out rows
    -- The two laws of the pooled vector are of a row with a token at least.
    pub pools_first : (r : Row) → 0 < length r.0 → length r.1 ≡ length r.0 → PoolsFirst variant m r
    pub pooled_pad :
        (r : Row) (k : ℕ)
        → 0 < length r.0
        → length r.1 ≡ length r.0
        → m.pooled (r.0 ++ replicate k pad_id, r.1 ++ replicate k 0) ≡ m.pooled r
    pub hidden_pad :
        (r : Row) (k j : ℕ)
        → length r.1 ≡ length r.0
        → j < length r.0
        → get_elem? (m.hidden (r.0 ++ replicate k pad_id, r.1 ++ replicate k 0)) j
          ≡ get_elem? (m.hidden r) j
    -- There is a hidden state for each token.
    pub hidden_all : (r : Row) → length r.1 ≡ length r.0 → length (m.hidden r) ≡ length r.0
