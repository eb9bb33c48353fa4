-- ===== src/JitGuard/Coverage.antt =====
-- Which batches of chunks the guard lets through, and what it says of the others.
use bge_m3_embedding_server.Prelude.{
  ℕ, ◌≤◌, ◌<◌, ◌≡◌, refl, ap, ◌⊎◌, inl, inr, some, List, [], ◌∷◌, ◌++◌, arith, All, length, longest,
}
use bge_m3_embedding_server.AppError.{TrtJitRejection}
use bge_m3_embedding_server.JitGuard.{
  TrtJitGuard, Admission, admitted, rejected, admit, guard_each, guard_chunks,
}

-- A sequence length below the threshold, or within the warmed engines.
abbrev pub IsCovered : TrtJitGuard → ℕ → Type 0
IsCovered g seq = (seq < g.guard_seq) ⊎ (seq ≤ g.warmed_seq_ceiling)

admit-IsCovered : (g : TrtJitGuard) (b s : ℕ) → admit g b s ≡ admitted → IsCovered g s
unfolding admit
admit-IsCovered g b s h = ground arith

IsCovered-admit : (g : TrtJitGuard) (b s : ℕ) → IsCovered g s → admit g b s ≡ admitted
unfolding admit
IsCovered-admit g b s h = ground arith

-- The chunk that a refusal is about, and that the chunks before it are covered.
abbrev pub Refuses : TrtJitGuard → List (List ℕ) → List ℕ → TrtJitRejection → Type 0
Refuses g chunks lens r =
    (before : List (List ℕ)) × (chunk : List ℕ) × (after : List (List ℕ)) × (chunks
      ≡ before ++ chunk ∷ after)
    × All (λ c. IsCovered g (longest lens c)) before
    × (g.guard_seq ≤ longest lens chunk)
    × (g.warmed_seq_ceiling < longest lens chunk)
    × (r ≡ record {
      batch = length chunk;
      seq = longest lens chunk;
      guard_seq = g.guard_seq;
      warmed_seq_ceiling = g.warmed_seq_ceiling;
    })

abbrev pub Decides : TrtJitGuard → List (List ℕ) → List ℕ → Admission → Type 0
Decides g chunks lens a =
    ((a ≡ admitted) × All (λ c. IsCovered g (longest lens c)) chunks)
    ⊎ ((r : TrtJitRejection) × (a ≡ rejected r) × Refuses g chunks lens r)

abbrev AdmitCases : TrtJitGuard → ℕ → ℕ → Type 0
AdmitCases g b s =
    ((admit g b s ≡ admitted) × IsCovered g s)
    ⊎ ((g.guard_seq ≤ s)
        × (g.warmed_seq_ceiling < s)
        × (admit g b s
            ≡ rejected (record {
              batch = b;
              seq = s;
              guard_seq = g.guard_seq;
              warmed_seq_ceiling = g.warmed_seq_ceiling;
            })))

admit-cases : (g : TrtJitGuard) (b s : ℕ) → AdmitCases g b s
unfolding admit
admit-cases g b s = ground arith

Refuses-later :
    (g : TrtJitGuard) (c : List ℕ) (cs : List (List ℕ)) (lens : List ℕ) (r : TrtJitRejection)
    → IsCovered g (longest lens c)
    → Refuses g cs lens r
    → Refuses g (c ∷ cs) lens r
Refuses-later g c cs lens r h (before, chunk, after, e, covered, hi, lo, shape) =
    (c ∷ before, chunk, after, ap (◌∷◌ c) e, (h, covered), hi, lo, shape)

guard_step :
    (g : TrtJitGuard) (c : List ℕ) (cs : List (List ℕ)) (lens : List ℕ)
    → AdmitCases g (length c) (longest lens c)
    → Decides g cs lens (guard_each g cs lens)
    → Decides g (c ∷ cs) lens (guard_each g (c ∷ cs) lens)
unfolding guard_each
guard_step g c cs lens (inr (hi, lo, e)) d =
    rw (e, guard_each) (inr (_, refl, ([], c, cs, refl, tt, hi, lo, refl)))
guard_step g c cs lens (inl (e, h)) (inl (ok, covered)) =
    rw (e, guard_each) (inl (ok, (h, covered)))
guard_step g c cs lens (inl (e, h)) (inr (r, bad, ref)) =
    rw (e, guard_each) (inr (r, bad, Refuses-later g c cs lens r h ref))

-- With a guard, either every chunk is covered and all are admitted, or the first chunk that is not
-- covered is refused, with its size and the guard's limits.
pub guard_chunks-Decides :
    (g : TrtJitGuard) (chunks : List (List ℕ)) (lens : List ℕ)
    → Decides g chunks lens (guard_chunks (some g) chunks lens)
unfolding guard_chunks guard_each
guard_chunks-Decides g [] lens = inl (refl, tt)
guard_chunks-Decides g (c ∷ cs) lens =
    guard_step g c cs lens (admit-cases g (length c) (longest lens c))
      (guard_chunks-Decides g cs lens)

-- Raising the warmed ceiling never turns an admitted batch away.
pub guard_chunks_mono :
    (g : TrtJitGuard) (ceiling : ℕ) (chunks : List (List ℕ)) (lens : List ℕ)
    → g.warmed_seq_ceiling ≤ ceiling
    → guard_chunks (some g) chunks lens ≡ admitted
    → guard_chunks (some (record g { warmed_seq_ceiling = ceiling })) chunks lens ≡ admitted
unfolding guard_chunks guard_each
guard_chunks_mono g ceiling [] lens le h = refl
guard_chunks_mono g ceiling (c ∷ cs) lens le h = elim (admit-cases g (length c) (longest lens c)) [
  | inl (e, covered) ↦
      rw
        (
          IsCovered-admit (record g { warmed_seq_ceiling = ceiling }) (length c) (longest lens c)
              (omega arith),
          guard_each,
        )
        (guard_chunks_mono g ceiling cs lens le (rw (e, guard_each) at h))
  | inr (hi, lo, e) ↦ cc (rw (e, guard_each) at h)
]
