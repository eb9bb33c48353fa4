-- ===== src/Handler.antt =====
-- src/handler: the embedding routes, and src/state.rs: the status of the memory probe.
pub mod Validation
pub mod Routes
pub mod Health
pub mod Headers
pub mod Router
mod Tests
use bge_m3_embedding_server.Prelude.{
  ℕ, zero, suc, ◌+◌, ◌*◌, ◌/◌, ◌%◌, ◌^◌, Bool, true, false, not, Option, none, some, List, [], ◌∷◌,
  ◌++◌, map, ◌==◌, ltb, if◌then◌else◌, is_empty, length, Text, codes, decimal,
}
use bge_m3_embedding_server.AppError.{
  AppError, invalid_request, service_unavailable, ErrorResponse, into_response, from_error, Result,
  ok, err, panic, Error,
}
use bge_m3_embedding_server.Scores.{sum}
use bge_m3_embedding_server.Embed.Types.{EmbedStats, SparseEmbedding, DualEmbedding}
use bge_m3_embedding_server.Pool.{Delivery}
use bge_m3_embedding_server.Pool

-- `state::ProbeStatus`
pub data ProbeStatus : Type 0 where
  disabled probe_running complete probe_failed cache_hit : ProbeStatus

-- `status as u8`
unfoldable pub to_u8 : ProbeStatus → ℕ
to_u8 disabled = 0
to_u8 probe_running = 1
to_u8 complete = 2
to_u8 probe_failed = 3
to_u8 cache_hit = 4

unfoldable pub as_str : ProbeStatus → Text
as_str disabled = codes "disabled"
as_str probe_running = codes "running"
as_str complete = codes "complete"
as_str probe_failed = codes "failed"
as_str cache_hit = codes "cache_hit"

unfoldable pub from_u8 : ℕ → ProbeStatus
from_u8 v =
    if v == 0
    then disabled
    else if v == 1
    then probe_running
    else if v == 2
    then complete
    else if v == 4
    then cache_hit
    else probe_failed

-- What the embedding routes read of `AppState`.
pub record AppState : Type 0 where
  pub ready : Bool
  pub max_batch : ℕ
  pub live_workers : ℕ

-- `MAX_STRING_CHARS`
abbrev pub max_string_chars : ℕ
max_string_chars = 32768

-- The messages of a text that is too long, and of a batch that is too large.
unfoldable pub too_long : ℕ → ℕ → Text
too_long i char_count =
    codes "input["
    ++ (decimal i
        ++ (codes "] length "
            ++ (decimal char_count
                ++ (codes " exceeds maximum "
                    ++ (decimal max_string_chars ++ codes " characters")))))

unfoldable pub too_many : ℕ → ℕ → Text
too_many batch_size max_batch =
    codes "batch size " ++ (decimal batch_size ++ (codes " exceeds maximum " ++ decimal max_batch))

-- The loop over the texts, from position `i`. A text is the list of its characters.
unfoldable pub validate_texts : List Text → ℕ → Option AppError
validate_texts [] i = none
validate_texts (text ∷ texts) i =
    let rest = validate_texts texts (suc i) in
    if ltb max_string_chars (length text)
    then some (invalid_request (too_long i (length text)))
    else rest

-- The error, if there is one.
unfoldable pub validate_input : List Text → ℕ → Option AppError
unfolding validate_texts
validate_input texts max_batch =
    if is_empty texts
    then some (invalid_request (codes "input must not be empty"))
    else if ltb max_batch (length texts)
    then some (invalid_request (too_many (length texts) max_batch))
    else validate_texts texts 0

unfoldable pub check_ready : AppState → Option AppError
check_ready state =
    if not state.ready
    then some (service_unavailable (codes "model not ready"))
    else if state.live_workers == 0
    then some (service_unavailable (codes "no workers available"))
    else none

-- `texts.iter().map(|t| t.chars().count() / 4 + 1).sum()`
unfoldable pub prompt_tokens : List Text → ℕ
prompt_tokens texts = sum (map (λ t. length t / 4 + 1) texts)

-- A response: an error, the body of a success, or a panic of the handler's task.
pub data Response (A : Type 0) : Type 0 where
  refused : ErrorResponse → Response A
  answered : A → Response A
  crashed : Response A

-- A numbered item of a response.
pub record Item (A : Type 0) : Type 0 where
  pub index : ℕ
  pub item : A

-- The items of `into_iter().enumerate()`, from a position on.
unfoldable pub enumerate_from : {A B : Type 0} → (A → B) → ℕ → List A → List (Item B)
enumerate_from f i [] = []
enumerate_from f i (a ∷ rest) = (record { index = i; item = f a }) ∷ enumerate_from f (suc i) rest

-- The body: the items, and the number of prompt tokens where the route reports it.
pub record Body (A : Type 0) : Type 0 where
  pub data_items : List (Item A)
  pub usage : Option ℕ

-- What the three routes share: check, validate, ask the pool, and number the results.
unfoldable pub embeddings_route :
    {A B : Type 0}
    → AppState
    → List Text
    → Result (List A × EmbedStats)
    → (A → B)
    → Option ℕ
    → Response (Body B)
unfolding check_ready validate_input enumerate_from
embeddings_route state texts result f usage = elim (check_ready state) [
  | some e ↦ refused (into_response e)
  | none ↦ elim (validate_input texts state.max_batch) [
    | some e ↦ refused (into_response e)
    | none ↦ elim result [
      | err e ↦ refused (into_response (from_error e))
      | panic ↦ crashed
      | ok (rows, stats) ↦ answered (record { data_items = enumerate_from f 0 rows; usage = usage })
    ]
  ]
]

-- `*i as u32`
unfoldable pub sparse_values : {F : Type 0} → SparseEmbedding F → SparseEmbedding F
sparse_values emb = record emb { indices = map (λ i. i % 2 ^ 32) emb.indices }

unfoldable pub dense_embeddings :
    {F : Type 0}
    → AppState
    → List Text
    → Delivery (List (List F) × EmbedStats)
    → Response (Body (List F))
unfolding embeddings_route prompt_tokens
dense_embeddings state texts delivery =
    embeddings_route state texts (Pool.dense delivery) (λ v. v) (some (prompt_tokens texts))

-- The sparse route reports no usage.
unfoldable pub sparse_embeddings :
    {F : Type 0}
    → AppState
    → List Text
    → Delivery (List (SparseEmbedding F) × EmbedStats)
    → Response (Body (SparseEmbedding F))
unfolding embeddings_route sparse_values
sparse_embeddings state texts delivery =
    embeddings_route state texts (Pool.sparse delivery) sparse_values none

unfoldable pub both_embeddings :
    {F : Type 0}
    → AppState
    → List Text
    → Delivery (List (DualEmbedding F) × EmbedStats)
    → Response (Body (DualEmbedding F))
unfolding embeddings_route sparse_values prompt_tokens
both_embeddings state texts delivery =
    embeddings_route state texts (Pool.both delivery)
      (λ pair. record pair { sparse = sparse_values pair.sparse }) (some (prompt_tokens texts))
