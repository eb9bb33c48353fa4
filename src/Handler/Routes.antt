-- ===== src/Handler/Routes.antt =====
-- What the embedding routes answer.
use mathlib.Core.Option.{some_inj}
use bge_m3_embedding_server.Prelude.{
  ℕ, zero, suc, ◌+◌, ◌<◌, ◌≡◌, refl, ap, ap₂, ◌∙◌, ◌⊎◌, inl, inr, true, false, Option, none, some,
  List, [], ◌∷◌, arith, Bool-cases, length, get_elem?, Text, codes,
}
use bge_m3_embedding_server.AppError.{AppError, service_unavailable, Result, ok, into_response}
use bge_m3_embedding_server.Embed.Types.{EmbedStats}
use bge_m3_embedding_server.Pool.{Delivery, replied}
use bge_m3_embedding_server.Pool
use bge_m3_embedding_server.Handler.{
  AppState, refused, answered, Body, check_ready, enumerate_from, embeddings_route,
  dense_embeddings, prompt_tokens,
}
use bge_m3_embedding_server.Handler.Validation.{IsValid, validate_input-decides}

-- The state in which requests are served.
abbrev pub IsServing : AppState → Type 0
IsServing state = (state.ready ≡ true) × (0 < state.live_workers)

check_ready-IsServing : (state : AppState) → IsServing state → check_ready state ≡ none
unfolding check_ready
check_ready-IsServing state (ready, live) = rw (ready, check_ready) (ground arith)

get_elem?-enumerate_from :
    {A B : Type 0} (f : A → B) (i : ℕ) (rows : List A) (k : ℕ) (a : A)
    → get_elem? rows k ≡ some a
    → get_elem? (enumerate_from f i rows) k ≡ some (record { index = i + k; item = f a })
unfolding enumerate_from
get_elem?-enumerate_from f i [] k a h = cc h
get_elem?-enumerate_from f i (r ∷ rs) zero a h =
    ap₂ (λ n x. some (record { index = n; item = f x })) (omega arith) (some_inj.0 h)
get_elem?-enumerate_from f i (r ∷ rs) (suc k) a h =
    get_elem?-enumerate_from f (suc i) rs k a h
    ∙ ap (λ n. some (record { index = n; item = f a })) (omega arith)

length-enumerate_from :
    {A B : Type 0} (f : A → B) (i : ℕ) (rows : List A)
    → length (enumerate_from f i rows) ≡ length rows
unfolding enumerate_from
length-enumerate_from f i [] = refl
length-enumerate_from f i (r ∷ rs) = ap suc (length-enumerate_from f (suc i) rs)

-- A dense request that is valid, to a server that serves, whose worker replies with vectors, is
-- answered with the vectors in order, each numbered by its position.
pub dense_embeddings-answered :
    {F : Type 0} (state : AppState) (texts : List Text) (rows : List (List F)) (stats : EmbedStats)
    → IsServing state
    → IsValid texts state.max_batch
    → (body : Body (List F)) × (dense_embeddings state texts (replied (ok (rows, stats)))
        ≡ answered body)
      × (length body.data_items ≡ length rows)
      × ((k : ℕ) (v : List F)
          → get_elem? rows k ≡ some v
          → get_elem? body.data_items k ≡ some (record { index = k; item = v }))
unfolding dense_embeddings embeddings_route Pool.dense
dense_embeddings-answered state texts rows stats serving valid =
    elim (validate_input-decides texts state.max_batch) [
      | inr (bad, e, some_error, status) ↦ absurd (bad valid)
      | inl (v, accepted) ↦ (
        record { data_items = enumerate_from (λ v. v) 0 rows; usage = some (prompt_tokens texts) },
        rw
            (
              check_ready-IsServing state serving,
              accepted,
              embeddings_route,
              dense_embeddings,
              Pool.dense,
            )
            refl,
        length-enumerate_from (λ v. v) 0 rows,
        λ k v h.
            get_elem?-enumerate_from (λ v. v) 0 rows k v h
            ∙ ap (λ n. some (record { index = n; item = v })) (omega arith),
      )
    ]

-- A server that is not ready, or has no live worker, answers 503 to any request.
pub embeddings_route-unavailable :
    {A B : Type 0} (state : AppState) (texts : List Text) (r : Result (List A × EmbedStats))
    (f : A → B) (usage : Option ℕ)
    → (state.ready ≡ false) ⊎ (state.live_workers ≡ 0)
    → (e : AppError) × (embeddings_route state texts r f usage ≡ refused (into_response e))
      × ((into_response e).status ≡ 503)
unfolding embeddings_route check_ready into_response
embeddings_route-unavailable state texts r f usage (inl e) = (
  service_unavailable (codes "model not ready"),
  rw (e, check_ready, embeddings_route) refl,
  refl,
)
embeddings_route-unavailable state texts r f usage (inr e) = elim (Bool-cases state.ready) [
  | inl ready ↦ (
    service_unavailable (codes "no workers available"),
    rw (ready, e, check_ready, embeddings_route) refl,
    refl,
  )
  | inr unready ↦ (
    service_unavailable (codes "model not ready"),
    rw (unready, check_ready, embeddings_route) refl,
    refl,
  )
]
