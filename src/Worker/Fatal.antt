-- ===== src/Worker/Fatal.antt =====
-- How the search for a fatal error sees the causes of an error.
use mathlib.Core.Option.{some_inj}
use bge_m3_embedding_server.Prelude.{
  ℕ, ◌≡◌, refl, ◌⊎◌, inl, inr, true, List, [], ◌∷◌, ◌++◌, get_elem?, zero, suc, some, Text, codes,
  contains, to_lowercase, contains-append_left, contains-append_right, to_lowercase-append,
  or_right,
}
use bge_m3_embedding_server.AppError.{Error, Cause, display_chain, display_sources}
use bge_m3_embedding_server.Worker.Retry.{is_trt_engine_build_fatal}

-- The patterns of a fatal message, in any case of its letters.
abbrev pub IsFatalMessage : Text → Type 0
IsFatalMessage m =
    (contains (codes "failed to build engine") (to_lowercase m) ≡ true)
    ⊎ (contains (codes "failed to create engine from network") (to_lowercase m) ≡ true)

message-in_sources :
    (s : Text) (cs : List Cause) (k : ℕ) (c : Cause)
    → get_elem? cs k ≡ some c
    → contains s (to_lowercase c.message) ≡ true
    → contains s (to_lowercase (display_sources cs)) ≡ true
message-in_sources s [] k c at_k h = cc at_k
message-in_sources s (d ∷ ds) zero c at_k h =
    rw
      (
        to_lowercase-append (codes ": ") (d.message ++ display_sources ds),
        to_lowercase-append d.message (display_sources ds),
      )
      (contains-append_right s _ _ (contains-append_left s _ _ (rw (← some_inj.0 at_k) at h)))
message-in_sources s (d ∷ ds) (suc k) c at_k h =
    rw
      (
        to_lowercase-append (codes ": ") (d.message ++ display_sources ds),
        to_lowercase-append d.message (display_sources ds),
      )
      (contains-append_right s _ _
        (contains-append_right s _ _ (message-in_sources s ds k c at_k h)))

message-in_chain :
    (s : Text) (e : Error) (k : ℕ) (c : Cause)
    → get_elem? (e.outermost ∷ e.sources) k ≡ some c
    → contains s (to_lowercase c.message) ≡ true
    → contains s (to_lowercase (display_chain e)) ≡ true
message-in_chain s e zero c at_k h =
    rw (to_lowercase-append e.outermost.message (display_sources e.sources))
      (contains-append_left s _ _ (rw (← some_inj.0 at_k) at h))
message-in_chain s e (suc k) c at_k h =
    rw (to_lowercase-append e.outermost.message (display_sources e.sources))
      (contains-append_right s _ _ (message-in_sources s e.sources k c at_k h))

-- A fatal message anywhere in the chain of causes is found, however many contexts wrap it.
pub is_trt_engine_build_fatal-chain :
    (e : Error) (k : ℕ) (c : Cause)
    → get_elem? (e.outermost ∷ e.sources) k ≡ some c
    → IsFatalMessage c.message
    → is_trt_engine_build_fatal e ≡ true
unfolding is_trt_engine_build_fatal
is_trt_engine_build_fatal-chain e k c at_k (inl h) =
    rw (message-in_chain (codes "failed to build engine") e k c at_k h) refl
is_trt_engine_build_fatal-chain e k c at_k (inr h) =
    or_right _ _ (message-in_chain (codes "failed to create engine from network") e k c at_k h)
