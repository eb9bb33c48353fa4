-- ===== src/AppError.antt =====
-- src/error.rs, and the part of `anyhow::Error` that the server uses: an error is a chain of
-- causes, each with its message and, where it is one, the refusal of the JIT guard.
pub mod Status
mod Tests
use bge_m3_embedding_server.Prelude.{
  ℕ, Bool, true, false, ◌||◌, Option, none, some, List, [], ◌∷◌, ◌++◌, Text, codes,
}

-- `jit_guard::TrtJitRejection`
pub record TrtJitRejection : Type 0 where
  pub batch : ℕ
  pub seq : ℕ
  pub guard_seq : ℕ
  pub warmed_seq_ceiling : ℕ

pub record Cause : Type 0 where
  pub message : Text
  -- What `downcast_ref::<TrtJitRejection>` gives.
  pub rejection : Option TrtJitRejection

-- The outermost cause, and the chain of its sources.
pub record Error : Type 0 where
  pub outermost : Cause
  pub sources : List Cause

-- `anyhow::Result<A>`, and the panic of an index out of range or of an `expect`.
pub data Result {ℓ} (A : Type ℓ) : Type ℓ where
  ok : A → Result A
  err : Error → Result A
  panic : Result A

infixl 5 ◌>>=◌
abbrev pub ◌>>=◌ {ℓ κ} : {A : Type ℓ} {B : Type κ} → Result A → (A → Result B) → Result B
ok a >>= f = f a
err e >>= f = err e
panic >>= f = panic

-- `Option::expect` and `slice[i]`.
abbrev pub expect {ℓ} : {A : Type ℓ} → Option A → Result A
expect none = panic
expect (some a) = ok a

abbrev pub map_err {ℓ} : {A : Type ℓ} → (Error → Error) → Result A → Result A
map_err f (ok a) = ok a
map_err f (err e) = err (f e)
map_err f panic = panic

-- `anyhow::anyhow!(msg)`
unfoldable pub anyhow : Text → Error
anyhow msg = record { outermost = record { message = msg; rejection = none }; sources = [] }

-- `err.context(msg)`
unfoldable pub context : Text → Error → Error
context msg e = record {
  outermost = record { message = msg; rejection = none };
  sources = e.outermost ∷ e.sources;
}

-- `{e}`
abbrev pub display : Error → Text
display e = e.outermost.message

-- `embedder::error::ort_err`: only the message is kept.
unfoldable pub ort_err : Error → Error
unfolding anyhow
ort_err e = anyhow (display e)

-- `{e:#}`, the messages of the chain joined by ": ".
abbrev pub display_sources : List Cause → Text
display_sources [] = []
display_sources (c ∷ cs) = codes ": " ++ (c.message ++ display_sources cs)

abbrev pub display_chain : Error → Text
display_chain e = e.outermost.message ++ display_sources e.sources

is_rejection : Cause → Bool
is_rejection c = elim c.rejection [ none ↦ false | some r ↦ true ]

any_rejection : List Cause → Bool
unfolding is_rejection
any_rejection [] = false
any_rejection (c ∷ cs) = is_rejection c || any_rejection cs

-- `jit_guard::is_trt_shape_rejected`: some cause of the chain is a refusal.
unfoldable pub is_trt_shape_rejected : Error → Bool
unfolding any_rejection
is_trt_shape_rejected e = any_rejection (e.outermost ∷ e.sources)

pub data AppError : Type 0 where
  invalid_request service_unavailable internal : Text → AppError

-- The status, type, code and message of the response body.
pub record ErrorResponse : Type 0 where
  pub status : ℕ
  pub error_type : Text
  pub code : ℕ
  pub message : Text

-- `IntoResponse for AppError`
unfoldable pub into_response : AppError → ErrorResponse
into_response (invalid_request msg) = record {
  status = 400;
  error_type = codes "invalid_request_error";
  code = 400;
  message = msg;
}
into_response (service_unavailable msg) = record {
  status = 503;
  error_type = codes "service_unavailable";
  code = 503;
  message = msg;
}
into_response (internal msg) = record {
  status = 500;
  error_type = codes "internal_error";
  code = 500;
  message = msg;
}

-- `From<anyhow::Error> for AppError`
unfoldable pub from_error : Error → AppError
from_error e = elim (is_trt_shape_rejected e) [
  | true ↦
      service_unavailable
        (codes "embedding temporarily unavailable for this input size; please retry")
  | false ↦ internal (codes "internal server error")
]
