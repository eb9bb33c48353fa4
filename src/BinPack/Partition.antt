-- ===== src/BinPack/Partition.antt =====
-- The chunks of `bin_pack`, read one after the other, are the sorted indices.
use mathlib.Core.List.{append-nil, append_assoc}
use mathlib.Core.List.Perm
use bge_m3_embedding_server.Prelude.{
  ℕ, ◌≡◌, refl, sym, ap, ◌∙◌, List, [], ◌∷◌, ◌++◌, flatten, Perm, arith, length, get_or, range_from,
  flatten-snoc, Ascending, UnstableSort,
}
use bge_m3_embedding_server.Prelude.Floats.{F64}
use bge_m3_embedding_server.BinPack.{
  CostModel, Packing, no_chunks, flush, pack_step, pack_sorted, bin_pack,
}

-- The indices that have been packed.
abbrev packed : Packing → List ℕ
packed p = flatten p.chunks ++ p.current

flatten-flush : (p : Packing) (xs : List ℕ) → xs ≡ p.current → flatten (flush p) ≡ packed p
unfolding flush
flatten-flush p [] e = rw (← e) (ground (arith, append-nil (flatten p.chunks)))
flatten-flush p (x ∷ xs) e = ground (arith, flatten-snoc p.chunks (x ∷ xs))

-- The indices in ascending order of length.
abbrev pub sorted_indices : UnstableSort → List ℕ → List ℕ
sorted_indices s lens = s.sort_by_key (λ i. get_or lens i 0) (range_from 0 (length lens))

module _ (f : F64) (lens : List ℕ) (cm : CostModel f.Carrier) where
  packed-pack_step : (p : Packing) (i : ℕ) → packed (pack_step f lens cm p i) ≡ packed p ++ i ∷ []
  unfolding pack_step
  packed-pack_step p i =
      ground
        (arith, append_assoc (flatten p.chunks) p.current (i ∷ []), flatten-snoc p.chunks p.current)

  packed-pack_sorted :
      (xs : List ℕ) (p : Packing) → packed (pack_sorted f lens cm xs p) ≡ packed p ++ xs
  unfolding pack_sorted
  packed-pack_sorted [] p = rw append-nil
  packed-pack_sorted (x ∷ xs) p =
      packed-pack_sorted xs (pack_step f lens cm p x)
      ∙ ap (λ ys. ys ++ xs) (packed-pack_step p x)
      ∙ append_assoc (packed p) (x ∷ []) xs

-- Read one after the other, the chunks are the indices in ascending order of length.
pub flatten-bin_pack :
    (f : F64) (lens : List ℕ) (cm : CostModel f.Carrier) (s : UnstableSort)
    → flatten (bin_pack f lens cm s) ≡ sorted_indices s lens
unfolding bin_pack flatten
flatten-bin_pack f [] cm s = sym (Perm.eq-nil (s.sort-perm (λ i. 0) []))
flatten-bin_pack f (l ∷ ls) cm s =
    let p : Packing = pack_sorted f (l ∷ ls) cm (sorted_indices s (l ∷ ls)) no_chunks in
    flatten-flush p p.current refl ∙ packed-pack_sorted f (l ∷ ls) cm _ no_chunks

-- Every text is in exactly one chunk: the chunks together hold each index `0..n` once.
pub bin_pack-perm :
    (f : F64) (lens : List ℕ) (cm : CostModel f.Carrier) (s : UnstableSort)
    → Perm (flatten (bin_pack f lens cm s)) (range_from 0 (length lens))
bin_pack-perm f lens cm s =
    rw (flatten-bin_pack f lens cm s)
      (s.sort-perm (λ i. get_or lens i 0) (range_from 0 (length lens)))

-- Across the chunks and inside them the lengths ascend.
pub bin_pack-Ascending :
    (f : F64) (lens : List ℕ) (cm : CostModel f.Carrier) (s : UnstableSort)
    → Ascending (λ i. get_or lens i 0) (flatten (bin_pack f lens cm s))
bin_pack-Ascending f lens cm s =
    rw (flatten-bin_pack f lens cm s)
      (s.sort-Ascending (λ i. get_or lens i 0) (range_from 0 (length lens)))
