-- ===== src/Taskloop/Drained.antt =====
-- A whole taskloop, from `initialize` to its last chunk: every partition is emptied by calls of
-- `getPendingIterationsFromPartition`, which touch no other partition.
use nanos.Common.{
  ℕ, zero, suc, ◌+◌, ◌*◌, ◌^◌, ◌≤◌, ◌<◌, ◌≡◌, List, [], ◌∷◌, ◌++◌, ltb, if◌then◌else◌, arith, refl,
  sym, subst, ◌∙◌,
}
use nanos.Taskloop.Split.{
  Bounds, get_iteration_count, split_iterations, split_iterations-Chain, Chain,
}
use nanos.Taskloop.Chunks.{
  Partition, to_partitions, non_empty, with_chunksize, initialize, take_chunks, take_chunks-Taken,
  take_chunks_cover,
}

-- `calls` calls on each of the partitions: the chunks that they obtain, and how often
-- `_remainingPartitions` is decremented.
unfoldable pub drain : ℕ → Bounds → List Partition → List Bounds × ℕ
drain calls b [] = ([], 0)
drain calls b (p ∷ ps) =
    let (partition, chunks, decrements) = take_chunks calls b p in
    let (others, more) = drain calls b ps in (chunks ++ others, decrements + more)

-- Consecutive partitions of which nothing is taken.
abbrev pub Untaken : ℕ → ℕ → List Partition → Type 0
Untaken lower upper [] = lower ≡ upper
Untaken lower upper (p ∷ ps) =
    (p.next_lower_bound ≡ lower) × (lower ≤ p.upper_bound) × Untaken p.upper_bound upper ps

Untaken-le : (ps : List Partition) (lower upper : ℕ) → Untaken lower upper ps → lower ≤ upper
Untaken-le [] lower upper u = omega arith
Untaken-le (p ∷ ps) lower upper u = omega (arith, Untaken-le ps p.upper_bound upper u.2)

Chain-le : (bs : List Bounds) (lower upper : ℕ) → Chain lower upper bs → lower ≤ upper
Chain-le [] lower upper c = omega arith
Chain-le (b ∷ bs) lower upper c = omega (arith, Chain-le bs b.upper_bound upper c.2)

Chain-append :
    (xs ys : List Bounds) (lower middle upper : ℕ)
    → Chain lower middle xs
    → Chain middle upper ys
    → Chain lower upper (xs ++ ys)
Chain-append [] ys lower middle upper e d = subst (λ m. Chain m upper ys) (sym e) d
Chain-append (x ∷ xs) ys lower middle upper c d =
    (c.0, c.1, Chain-append xs ys x.upper_bound middle upper c.2 d)

-- How many partitions have something left.
abbrev pub open_partitions : List Partition → ℕ
open_partitions [] = 0
open_partitions (p ∷ ps) =
    (if ltb p.next_lower_bound p.upper_bound then 1 else 0) + open_partitions ps

Untaken-to_partitions :
    (bs : List Bounds) (lower upper : ℕ)
    → Chain lower upper bs
    → Untaken lower upper (to_partitions bs)
unfolding to_partitions
Untaken-to_partitions [] lower upper c = c
Untaken-to_partitions (b ∷ bs) lower upper c =
    (c.0, c.1, Untaken-to_partitions bs b.upper_bound upper c.2)

non_empty_lem :
    (bs : List Bounds) (lower upper : ℕ)
    → Chain lower upper bs
    → upper < 2 ^ 64
    → non_empty bs ≡ open_partitions (to_partitions bs)
unfolding non_empty to_partitions get_iteration_count
non_empty_lem [] lower upper c s = refl
non_empty_lem (b ∷ bs) lower upper c s =
    let le : b.upper_bound ≤ upper = Chain-le bs b.upper_bound upper c.2 in
    let ih = non_empty_lem bs b.upper_bound upper c.2 s in ground arith

drain-Chain :
    (calls : ℕ) (b : Bounds) (ps : List Partition) (lower upper : ℕ)
    → b.step ≡ 1
    → 0 < b.chunksize
    → upper + calls * b.chunksize < 2 ^ 64
    → upper ≤ lower + calls * b.chunksize
    → Untaken lower upper ps
    → Chain lower upper (drain calls b ps).0 × ((drain calls b ps).1 ≡ open_partitions ps)
unfolding drain
drain-Chain calls b [] lower upper s c f e u = (u, refl)
drain-Chain calls b (p ∷ ps) lower upper s c f e u =
    let le : p.upper_bound ≤ upper = Untaken-le ps p.upper_bound upper u.2 in
    let small : p.next_lower_bound + calls * b.chunksize < 2 ^ 64 = omega arith in
    let ih = drain-Chain calls b ps p.upper_bound upper s c f (omega arith) u.2 in
    let first = take_chunks_cover calls b p s c small (omega arith) (omega arith) in
    let counted = (take_chunks-Taken calls b p s c small).decrements in
    (
      Chain-append (take_chunks calls b p).1 (drain calls b ps).0 lower p.upper_bound upper
          (subst (λ l. Chain l p.upper_bound (take_chunks calls b p).1) u.0 first) ih.0,
      ground (arith, counted, ih.1),
    )

with_chunksize-positive : (n : ℕ) (b : Bounds) → 0 < (with_chunksize n b).chunksize
unfolding with_chunksize
with_chunksize-positive n b = ground arith

with_chunksize_keeps :
    (n : ℕ) (b : Bounds)
    → ((with_chunksize n b).step ≡ b.step)
      × ((with_chunksize n b).lower_bound ≡ b.lower_bound)
      × ((with_chunksize n b).upper_bound ≡ b.upper_bound)
unfolding with_chunksize
with_chunksize_keeps n b = ground arith

one_call_le : (calls c : ℕ) → 0 < calls → c ≤ calls * c
one_call_le zero c p = absurd (omega arith)
one_call_le (suc calls) c p = omega arith

drain-split :
    (n calls : ℕ) (b : Bounds)
    → 0 < n
    → 0 < calls
    → b.step ≡ 1
    → 0 < b.chunksize
    → b.lower_bound ≤ b.upper_bound
    → b.upper_bound + calls * b.chunksize < 2 ^ 64
    → b.upper_bound ≤ b.lower_bound + calls * b.chunksize
    → Chain b.lower_bound b.upper_bound (drain calls b (to_partitions (split_iterations n b))).0
      × ((drain calls b (to_partitions (split_iterations n b))).1
          ≡ non_empty (split_iterations n b))
drain-split n calls b pos some_call s c le small enough =
    let split : Chain b.lower_bound b.upper_bound (split_iterations n b) =
      split_iterations-Chain n b pos c le
        (omega (arith, one_call_le calls b.chunksize some_call)) in
    let parts = split_iterations n b in
    let drained =
      drain-Chain calls b (to_partitions parts) b.lower_bound b.upper_bound s c small enough
        (Untaken-to_partitions parts b.lower_bound b.upper_bound split) in
    (
      drained.0,
      drained.1 ∙ sym (non_empty_lem parts b.lower_bound b.upper_bound split (omega arith)),
    )

-- A normalised loop is executed completely and ends: once it is initialized, with or without a chunk
-- size of the program, and every partition has had calls enough for all iterations, the chunks
-- obtained are consecutive and cover the iterations exactly, and the remaining partitions have been
-- counted down to none; as long as no counter wraps.
pub drain-initialize :
    (n calls : ℕ) (b : Bounds)
    → 0 < n
    → 0 < calls
    → b.step ≡ 1
    → b.lower_bound ≤ b.upper_bound
    → b.upper_bound + calls * (initialize n b).bounds.chunksize < 2 ^ 64
    → b.upper_bound ≤ b.lower_bound + calls * (initialize n b).bounds.chunksize
    → Chain b.lower_bound b.upper_bound
        (drain calls (initialize n b).bounds (initialize n b).partitions).0
      × ((drain calls (initialize n b).bounds (initialize n b).partitions).1
          ≡ (initialize n b).remaining_partitions)
unfolding initialize
drain-initialize n calls b pos some_call s le small enough =
    let same = with_chunksize_keeps n b in
    let b' = with_chunksize n b in
    let drained =
      drain-split n calls b' pos some_call (same.0 ∙ s) (with_chunksize-positive n b)
        (omega (arith, same.1, same.2)) (omega (arith, same.2)) (omega (arith, same.1, same.2)) in
    (
      subst (λ l. Chain l b.upper_bound (drain calls b' (to_partitions (split_iterations n b'))).0)
          same.1
          (subst
            (λ u. Chain b'.lower_bound u (drain calls b' (to_partitions (split_iterations n b'))).0)
            same.2 drained.0),
      drained.1,
    )
