-- ===== src/Handler/Tests.antt =====
-- The dense route on a small request.
use bge_m3_embedding_server.Prelude.{
  ℕ, ◌≡◌, refl, ◌⊎◌, none, some, true, List, [], ◌∷◌, arith, length, get_elem?, Text, codes,
  starts_with,
}
use bge_m3_embedding_server.AppError.{AppError, ok, into_response}
use bge_m3_embedding_server.Embed.Types.{EmbedStats}
use bge_m3_embedding_server.Pool.{replied}
use bge_m3_embedding_server.Handler.{AppState, Body, answered, dense_embeddings, validate_input}
use bge_m3_embedding_server.Handler.Headers.{
  Header, underscored, insert, add_header, collect_from, collect_x_headers,
}
use bge_m3_embedding_server.Handler.Validation.{IsValid, validate_input-decides}
use bge_m3_embedding_server.Handler.Routes.{dense_embeddings-answered}

abbrev state : AppState
state = record { ready = true; max_batch = 8; live_workers = 2 }

abbrev texts : List Text
texts = (104 ∷ 105 ∷ []) ∷ (121 ∷ 111 ∷ []) ∷ []

abbrev stats : EmbedStats
stats = record {
  chunks = 1;
  max_chunk_seq = 4;
  total_token_positions = 8;
  tokenize_ms = 1;
  inference_ms = 5;
  seq_len_min = 4;
  seq_len_max = 4;
  seq_len_mean = 4;
  seq_len_p95 = 4;
}

abbrev rows : List (List ℕ)
rows = (1 ∷ 2 ∷ []) ∷ (3 ∷ 4 ∷ []) ∷ []

validate_input-decides_example :
    (IsValid texts 1 × (validate_input texts 1 ≡ none))
    ⊎ ((IsValid texts 1 → ⊥)
        × (e : AppError) × (validate_input texts 1 ≡ some e)
        × ((into_response e).status ≡ 400))
validate_input-decides_example = validate_input-decides texts 1

dense_embeddings-answered_example :
    (body : Body (List ℕ)) × (dense_embeddings state texts (replied (ok (rows, stats)))
      ≡ answered body)
    × (length body.data_items ≡ 2)
    × ((k : ℕ) (v : List ℕ)
        → get_elem? rows k ≡ some v
        → get_elem? body.data_items k ≡ some (record { index = k; item = v }))
dense_embeddings-answered_example =
    dense_embeddings-answered state texts rows stats (refl, omega arith)
      (omega arith, omega arith, (omega arith, (omega arith, tt)))

abbrev headers : List Header
headers =
    record { name = codes "x-trace-id"; value = some (codes "1") }
    ∷ record { name = codes "accept"; value = some (codes "any") }
    ∷ record { name = codes "x-raw"; value = none }
    ∷ record { name = codes "x-trace_id"; value = some (codes "2") }
    ∷ []

-- A dash and an underscore give the same key, and the last header wins.
collected : collect_x_headers headers ≡ (codes "x_trace_id", codes "2") ∷ []
unfolding collect_x_headers collect_from add_header insert underscored starts_with
collected = refl
