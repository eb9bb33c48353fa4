-- ===== src/Handler/Validation.antt =====
-- Which batches of texts the routes accept, and the codes of the probe status.
use bge_m3_embedding_server.Prelude.{
  ℕ, suc, ◌≤◌, ◌<◌, ◌≡◌, refl, ◌⊎◌, inl, inr, none, some, List, [], ◌∷◌, ltb, arith, Bool-cases,
  All, length, Text, codes,
}
use bge_m3_embedding_server.AppError.{AppError, invalid_request, into_response}
use bge_m3_embedding_server.Handler.{
  ProbeStatus, disabled, probe_running, complete, probe_failed, cache_hit, to_u8, from_u8,
  max_string_chars, too_long, too_many, validate_texts, validate_input,
}

-- The status survives its byte.
pub from_u8-to_u8 : (s : ProbeStatus) → from_u8 (to_u8 s) ≡ s
unfolding from_u8 to_u8
from_u8-to_u8 disabled = refl
from_u8-to_u8 probe_running = refl
from_u8-to_u8 complete = refl
from_u8-to_u8 probe_failed = refl
from_u8-to_u8 cache_hit = refl

abbrev pub FitsText : Text → Type 0
FitsText t = length t ≤ max_string_chars

-- A batch that is not empty, not too large, and without too long a text.
abbrev pub IsValid : List Text → ℕ → Type 0
IsValid texts max_batch = (0 < length texts) × (length texts ≤ max_batch) × All FitsText texts

-- The texts fit, or one is refused as a bad request.
validate_texts-cases :
    (texts : List Text) (i : ℕ)
    → (All FitsText texts × (validate_texts texts i ≡ none))
      ⊎ ((All FitsText texts → ⊥)
          × (msg : Text) × (validate_texts texts i ≡ some (invalid_request msg)))
unfolding validate_texts
validate_texts-cases [] i = inl (tt, refl)
validate_texts-cases (t ∷ ts) i = elim (Bool-cases (ltb max_string_chars (length t))) [
  | inl e ↦ inr ((λ a. ground (arith, a.0)), too_long i (length t), rw (e, validate_texts) refl)
  | inr e ↦ elim (validate_texts-cases ts (suc i)) [
    | inl (a, h) ↦ inl ((ground arith, a), rw (e, validate_texts) h)
    | inr (bad, msg, h) ↦ inr ((λ a. bad a.1), msg, rw (e, validate_texts) h)
  ]
]

-- A batch is accepted exactly if it is valid, and refused as a bad request, by 400, otherwise.
pub validate_input-decides :
    (texts : List Text) (max_batch : ℕ)
    → (IsValid texts max_batch × (validate_input texts max_batch ≡ none))
      ⊎ ((IsValid texts max_batch → ⊥)
          × (e : AppError) × (validate_input texts max_batch ≡ some e)
          × ((into_response e).status ≡ 400))
unfolding validate_input into_response
validate_input-decides [] max_batch =
    inr ((λ v. omega (arith, v.0)), invalid_request (codes "input must not be empty"), refl, refl)
validate_input-decides (t ∷ ts) max_batch = elim (Bool-cases (ltb max_batch (length (t ∷ ts)))) [
  | inl e ↦ inr (
    (λ v. ground (arith, v.1)),
    invalid_request (too_many (length (t ∷ ts)) max_batch),
    rw (e, validate_input) refl,
    refl,
  )
  | inr e ↦ elim (validate_texts-cases (t ∷ ts) 0) [
    | inl (a, h) ↦ inl ((omega arith, ground arith, a), rw (e, validate_input) h)
    | inr (bad, msg, h) ↦ inr ((λ v. bad v.2), invalid_request msg, rw (e, validate_input) h, refl)
  ]
]
