-- ===== src/BinPack/Fits.antt =====
-- What the workspace budget means for the chunks of `bin_pack`.
use bge_m3_embedding_server.Prelude.{
  ℕ, ◌+◌, max, ◌≡◌, ◌≢◌, refl, ◌⊎◌, inl, inr, true, false, List, [], ◌∷◌, ◌++◌, arith, Bool-cases,
  length, is_empty, get_or, All, All-append, length-append, longest, longest-snoc, UnstableSort,
}
use bge_m3_embedding_server.Prelude.Floats.{F64}
use bge_m3_embedding_server.BinPack.{
  CostModel, Packing, no_chunks, flush, fits, pack_step, pack_sorted, bin_pack,
}
use bge_m3_embedding_server.BinPack.Partition.{sorted_indices}

module _ (f : F64) (lens : List ℕ) (cm : CostModel f.Carrier) where
  -- A chunk to be run: not empty, and within the budget unless it is a single text.
  abbrev pub IsRunnable : List ℕ → Type 0
  IsRunnable c = (c ≢ []) × ((length c ≡ 1) ⊎ (fits f cm (length c) (longest lens c) ≡ true))

  -- The text that begins the second chunk does not fit into the first.
  abbrev pub IsFull : List ℕ → List ℕ → Type 0
  IsFull c [] = Unit
  IsFull c (i ∷ is) = fits f cm (length c + 1) (max (longest lens c) (get_or lens i 0)) ≡ false

  -- Each chunk but the last is full.
  abbrev pub IsGreedy : List (List ℕ) → Type 0
  IsGreedy [] = Unit
  IsGreedy (c ∷ []) = Unit
  IsGreedy (c ∷ d ∷ cs) = IsFull c d × IsGreedy (d ∷ cs)

  -- Extending the last chunk keeps the chunks greedy.
  IsGreedy-extend :
      (cs : List (List ℕ)) (x i : ℕ) (xs : List ℕ)
      → IsGreedy (cs ++ (x ∷ xs) ∷ [])
      → IsGreedy (cs ++ (x ∷ xs ++ i ∷ []) ∷ [])
  IsGreedy-extend [] x i xs g = tt
  IsGreedy-extend (c ∷ []) x i xs g = (g.0, tt)
  IsGreedy-extend (c ∷ d ∷ cs) x i xs g = (g.0, IsGreedy-extend (d ∷ cs) x i xs g.1)

  -- So does a new chunk that begins with a text for which the last has no room.
  IsGreedy-snoc :
      (cs : List (List ℕ)) (c d : List ℕ)
      → IsGreedy (cs ++ c ∷ [])
      → IsFull c d
      → IsGreedy ((cs ++ c ∷ []) ++ d ∷ [])
  IsGreedy-snoc [] c d g h = (h, tt)
  IsGreedy-snoc (b ∷ []) c d g h = (g.0, (h, tt))
  IsGreedy-snoc (b ∷ b' ∷ cs) c d g h = (g.0, IsGreedy-snoc (b' ∷ cs) c d g.1 h)

  record IsPacking (p : Packing) : Type 0 where
    done : All IsRunnable p.chunks
    open_chunk : ((p.current ≡ []) × (p.chunks ≡ [])) ⊎ IsRunnable p.current
    longest : p.current_max_seq ≡ longest lens p.current
    greedy : IsGreedy (p.chunks ++ p.current ∷ [])

  -- A single text may stand alone whatever its cost.
  IsRunnable-single : (i : ℕ) → IsRunnable (i ∷ [])
  IsRunnable-single i = ((λ e. cc), inl refl)

  start_chunk : (i m : ℕ) → m ≡ 0 → max m (get_or lens i 0) ≡ longest lens (i ∷ [])
  start_chunk i m h = omega arith

  pack_step-first :
      (cs : List (List ℕ)) (m i : ℕ)
      → let p : Packing = record { chunks = cs; current = []; current_max_seq = m } in
        IsPacking p → IsPacking (pack_step f lens cm p i)
  unfolding pack_step
  pack_step-first [] m i v = record {
    done = tt;
    open_chunk = inr (IsRunnable-single i);
    longest = start_chunk i m v.longest;
    greedy = tt;
  }
  pack_step-first (c ∷ cs) m i v = elim v.open_chunk [ inl (_, e) ↦ cc | inr r ↦ absurd (r.0 refl) ]

  pack_step-next :
      (cs : List (List ℕ)) (x : ℕ) (xs : List ℕ) (m i : ℕ)
      → let p : Packing = record { chunks = cs; current = x ∷ xs; current_max_seq = m } in
        IsPacking p → IsPacking (pack_step f lens cm p i)
  unfolding pack_step
  pack_step-next cs x xs m i v =
      elim (Bool-cases (fits f cm (length (x ∷ xs) + 1) (max m (get_or lens i 0)))) [
        | inl e ↦ rw e (record {
          done = v.done;
          open_chunk = inr ((λ e'. cc), inr (ground (arith, grown, count)));
          longest = ground (arith, grown);
          greedy = IsGreedy-extend cs x i xs v.greedy;
        })
        | inr e ↦ rw e (record {
          done = All-append IsRunnable cs ((x ∷ xs) ∷ []) v.done (last_IsRunnable, tt);
          open_chunk = inr (IsRunnable-single i);
          longest = omega arith;
          greedy = IsGreedy-snoc cs (x ∷ xs) (i ∷ []) v.greedy (ground arith);
        })
      ]
    where
      grown : max m (get_or lens i 0) ≡ max (get_or lens x 0) (longest lens (xs ++ i ∷ []))
      grown = omega (arith, v.longest, longest-snoc lens xs i)

      count : length (x ∷ xs) + 1 ≡ length (x ∷ xs ++ i ∷ [])
      count = omega (arith, length-append xs (i ∷ []))

      last_IsRunnable : IsRunnable (x ∷ xs)
      last_IsRunnable = elim v.open_chunk [ inl (e, _) ↦ cc | inr r ↦ r ]

  pack_step-cases :
      (cs : List (List ℕ)) (xs : List ℕ) (m i : ℕ)
      → let p : Packing = record { chunks = cs; current = xs; current_max_seq = m } in
        IsPacking p → IsPacking (pack_step f lens cm p i)
  pack_step-cases cs [] m i v = pack_step-first cs m i v
  pack_step-cases cs (x ∷ xs) m i v = pack_step-next cs x xs m i v

  pack_sorted-IsPacking :
      (is : List ℕ) (p : Packing) → IsPacking p → IsPacking (pack_sorted f lens cm is p)
  unfolding pack_sorted
  pack_sorted-IsPacking [] p v = v
  pack_sorted-IsPacking (i ∷ is) p v =
      pack_sorted-IsPacking is (pack_step f lens cm p i)
        (pack_step-cases p.chunks p.current p.current_max_seq i v)

  no_chunks-IsPacking : IsPacking no_chunks
  no_chunks-IsPacking = record {
    done = tt;
    open_chunk = inl (refl, refl);
    longest = refl;
    greedy = tt;
  }

  flush-cases :
      (cs : List (List ℕ)) (xs : List ℕ) (m : ℕ)
      → let p : Packing = record { chunks = cs; current = xs; current_max_seq = m } in
        IsPacking p → All IsRunnable (flush p) × IsGreedy (flush p)
  unfolding flush
  flush-cases [] [] m v = (tt, tt)
  flush-cases (c ∷ cs) [] m v = elim v.open_chunk [ inl (_, e) ↦ cc | inr r ↦ absurd (r.0 refl) ]
  flush-cases cs (x ∷ xs) m v =
      (All-append IsRunnable cs ((x ∷ xs) ∷ []) v.done (last_IsRunnable, tt), v.greedy)
    where
      last_IsRunnable : IsRunnable (x ∷ xs)
      last_IsRunnable = elim v.open_chunk [ inl (e, _) ↦ cc | inr r ↦ r ]

  packed_chunks :
      (s : UnstableSort) → All IsRunnable (bin_pack f lens cm s) × IsGreedy (bin_pack f lens cm s)
  unfolding bin_pack
  packed_chunks s = elim (Bool-cases (is_empty lens)) [
    | inl e ↦ rw e (tt, tt)
    | inr e ↦ rw e (
        flush-cases p.chunks p.current p.current_max_seq
          (pack_sorted-IsPacking _ no_chunks no_chunks-IsPacking))
  ]
    where
      p : Packing
      p = pack_sorted f lens cm (sorted_indices s lens) no_chunks

  -- No chunk is empty, and each is within the workspace budget or a single text.
  pub bin_pack-IsRunnable : (s : UnstableSort) → All IsRunnable (bin_pack f lens cm s)
  bin_pack-IsRunnable s = (packed_chunks s).0

  -- No chunk but the last has room for the text that begins the next chunk.
  pub bin_pack-IsGreedy : (s : UnstableSort) → IsGreedy (bin_pack f lens cm s)
  bin_pack-IsGreedy s = (packed_chunks s).1
