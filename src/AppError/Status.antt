-- ===== src/AppError/Status.antt =====
-- Which status a client sees for an error of the pool.
use bge_m3_embedding_server.Prelude.{◌≡◌, refl, inl, inr, Bool-cases, true, false, Text, codes, ◌⊎◌}
use bge_m3_embedding_server.AppError.{
  Error, ErrorResponse, context, is_trt_shape_rejected, into_response, from_error,
}

-- A context added to an error leaves its refusal in the chain.
pub is_trt_shape_rejected-context :
    (msg : Text) (e : Error) → is_trt_shape_rejected (context msg e) ≡ is_trt_shape_rejected e
unfolding is_trt_shape_rejected context
is_trt_shape_rejected-context msg e = refl

-- A refusal of the JIT guard is answered by 503, whatever contexts were added to it; any other
-- error is answered by 500 and a message that is the same for all.
pub from_error-status :
    (e : Error)
    → let r : ErrorResponse = into_response (from_error e) in
      ((is_trt_shape_rejected e ≡ true) × (r.status ≡ 503) × (r.code ≡ 503))
      ⊎ ((is_trt_shape_rejected e ≡ false)
          × (r.status ≡ 500)
          × (r.message ≡ codes "internal server error"))
unfolding into_response from_error
from_error-status e = elim (Bool-cases (is_trt_shape_rejected e)) [
  | inl h ↦ inl (h, rw (h, from_error), rw (h, from_error))
  | inr h ↦ inr (h, rw (h, from_error), rw (h, from_error))
]
