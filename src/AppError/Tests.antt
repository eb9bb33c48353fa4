-- ===== src/AppError/Tests.antt =====
-- The response to a refusal that two contexts wrap.
use bge_m3_embedding_server.Prelude.{◌≡◌, refl, codes, some, []}
use bge_m3_embedding_server.AppError.{
  Error, context, is_trt_shape_rejected, into_response, from_error,
}

abbrev refusal : Error
refusal = record {
  outermost = record {
    message = codes "refused";
    rejection = some (record { batch = 1; seq = 9; guard_seq = 4; warmed_seq_ceiling = 2 });
  };
  sources = [];
}

wrapped_refusal-status :
    (into_response
      (from_error (context (codes "Dense embed error") (context (codes "chunk 2") refusal)))).status
    ≡ 503
unfolding from_error into_response is_trt_shape_rejected context
wrapped_refusal-status = refl
