-- ===== src/Taskloop/Chunks.antt =====
-- How collaborators take chunks: `TaskloopPartition`, `TaskloopInfo::initialize` and
-- `Taskloop::getPendingIterationsFromPartition` of src/tasks. One call is one step: what other threads
-- do meanwhile is another call before or after its fetch_add.
use nanos.Common.{
  ℕ, zero, suc, ◌+◌, ◌*◌, ◌/◌, ◌%◌, ◌^◌, ◌≤◌, ◌<◌, ◌≡◌, min, max, List, [], ◌∷◌, leb, ltb, ◌==◌,
  if◌then◌else◌, arith, Option, none, some, Bool, true, false, Bool-cases, inl, inr, ltb→lt,
}
use native.Mathlib.Nat.{add_assoc}
use nanos.Taskloop.Split.{Bounds, get_iteration_count, split_iterations, Chain}

pub record Partition : Type 0 where
  pub upper_bound : ℕ
  pub next_lower_bound : ℕ

pub record TaskloopInfo : Type 0 where
  pub bounds : Bounds
  pub remaining_partitions : ℕ
  pub partitions : List Partition

unfoldable pub to_partitions : List Bounds → List Partition
to_partitions [] = []
to_partitions (b ∷ bs) =
    record { upper_bound = b.upper_bound; next_lower_bound = b.lower_bound } ∷ to_partitions bs

unfoldable pub non_empty : List Bounds → ℕ
unfolding get_iteration_count
non_empty [] = 0
non_empty (b ∷ bs) = (if ltb 0 (get_iteration_count b) then 1 else 0) + non_empty bs

-- The chunk size that `initialize` chooses where the program gives none.
unfoldable pub with_chunksize : ℕ → Bounds → Bounds
unfolding get_iteration_count
with_chunksize n b =
    if b.chunksize == 0 then record b { chunksize = max (get_iteration_count b / (2 * n)) 1 } else b

-- `initialize`, for `n` partitions.
unfoldable pub initialize : ℕ → Bounds → TaskloopInfo
unfolding to_partitions non_empty with_chunksize split_iterations
initialize n b =
    let b' = with_chunksize n b in
    let parts = split_iterations n b' in
    record { bounds = b'; remaining_partitions = non_empty parts; partitions = to_partitions parts }

-- What one call does to its partition: the partition afterwards, the bounds that it obtains, and
-- whether they are the last of the partition.
pub record Grant : Type 0 where
  pub partition : Partition
  pub obtained : Option Bounds
  pub is_last : Bool

unfoldable pub take_chunk : Bounds → Partition → Grant
take_chunk b p =
    let stepped_chunksize = b.step * b.chunksize % 2 ^ 64 in
    let lower = p.next_lower_bound in
    let p' = record p { next_lower_bound = (lower + stepped_chunksize) % 2 ^ 64 } in
    let upper = min ((lower + stepped_chunksize) % 2 ^ 64) p.upper_bound in
    if ltb lower p.upper_bound
    then record {
      partition = p';
      obtained = some (record {
        lower_bound = lower;
        upper_bound = upper;
        step = b.step;
        chunksize = b.chunksize;
      });
      is_last = leb p.upper_bound upper;
    }
    else record { partition = p'; obtained = none; is_last = false }

unfoldable pub add_obtained : Option Bounds → List Bounds → List Bounds
add_obtained none bs = bs
add_obtained (some c) bs = c ∷ bs

-- Any number of calls on one partition, in the order of their fetch_adds: what they obtain, and how
-- often `_remainingPartitions` is decremented.
unfoldable pub take_chunks : ℕ → Bounds → Partition → Partition × List Bounds × ℕ
unfolding add_obtained
take_chunks zero b p = (p, [], 0)
take_chunks (suc n) b p =
    let g = take_chunk b p in
    let (p', bs, lasts) = take_chunks n b g.partition in
    (p', add_obtained g.obtained bs, (if g.is_last then 1 else 0) + lasts)

-- Non-empty chunks of at most the chunk size.
abbrev pub AllChunks : ℕ → List Bounds → Type 0
AllChunks size [] = Unit {0}
AllChunks size (b ∷ bs) =
    (b.lower_bound < b.upper_bound) × (b.upper_bound ≤ b.lower_bound + size) × AllChunks size bs

abbrev pub moved : Bounds → Partition → Partition
moved b p = record p { next_lower_bound = p.next_lower_bound + b.chunksize }

abbrev pub chunk_of : Bounds → Partition → Bounds
chunk_of b p = record {
  lower_bound = p.next_lower_bound;
  upper_bound = min (p.next_lower_bound + b.chunksize) p.upper_bound;
  step = b.step;
  chunksize = b.chunksize;
}

module _ (b : Bounds) (p : Partition) (normal : b.step ≡ 1)
    (small : p.next_lower_bound + b.chunksize < 2 ^ 64) where
  stepped : b.step * b.chunksize % 2 ^ 64 ≡ b.chunksize
  stepped = rw normal (omega arith)

  advanced :
      (p.next_lower_bound + b.step * b.chunksize % 2 ^ 64) % 2 ^ 64
      ≡ p.next_lower_bound + b.chunksize
  advanced = rw stepped (omega arith)

  pub take_chunk-some :
      ltb p.next_lower_bound p.upper_bound ≡ true
      → take_chunk b p ≡ record {
        partition = moved b p;
        obtained = some (chunk_of b p);
        is_last = leb p.upper_bound (min (p.next_lower_bound + b.chunksize) p.upper_bound);
      }
  unfolding take_chunk
  take_chunk-some e = rw (e, advanced)

  pub take_chunk-none :
      ltb p.next_lower_bound p.upper_bound ≡ false
      → take_chunk b p ≡ record { partition = moved b p; obtained = none; is_last = false }
  unfolding take_chunk
  take_chunk-none e = rw (e, advanced)

  take_chunks_some :
      (n : ℕ)
      → ltb p.next_lower_bound p.upper_bound ≡ true
      → take_chunks (suc n) b p ≡ (
        (take_chunks n b (moved b p)).0,
        chunk_of b p ∷ (take_chunks n b (moved b p)).1,
        (if leb p.upper_bound (min (p.next_lower_bound + b.chunksize) p.upper_bound) then 1 else 0)
            + (take_chunks n b (moved b p)).2,
      )
  unfolding take_chunks
  take_chunks_some n e = rw (take_chunk-some e)

  take_chunks_none :
      (n : ℕ)
      → ltb p.next_lower_bound p.upper_bound ≡ false
      → take_chunks (suc n) b p ≡ (
        (take_chunks n b (moved b p)).0,
        (take_chunks n b (moved b p)).1,
        0 + (take_chunks n b (moved b p)).2,
      )
  unfolding take_chunks
  take_chunks_none n e = rw (take_chunk-none e)

-- What `n` calls have obtained from a partition.
pub record Taken (n : ℕ) (b : Bounds) (p : Partition) : Type 0 where
  pub chain :
      Chain
        (min p.next_lower_bound p.upper_bound)
        (min (p.next_lower_bound + n * b.chunksize) p.upper_bound)
        (take_chunks n b p).1
  pub chunks : AllChunks b.chunksize (take_chunks n b p).1
  pub decrements : (take_chunks n b p).2 ≡ (
      if ltb p.next_lower_bound p.upper_bound
      then (if leb p.upper_bound (p.next_lower_bound + n * b.chunksize) then 1 else 0)
      else 0)

no_calls-Taken : (b : Bounds) (p : Partition) → Taken 0 b p
unfolding take_chunks
no_calls-Taken b p =
    let none_yet : 0 * b.chunksize ≡ 0 = omega arith in
    record { chain = omega arith; chunks = tt; decrements = ground (arith, none_yet) }

-- However many calls there are, together they obtain consecutive chunks from the start of what is
-- left of the partition up to its end or `n` chunk sizes, each chunk non-empty and at most of the
-- chunk size, and the partition is counted off exactly once, when its last chunk is taken; if the
-- loop is normalised and the counter does not wrap.
pub take_chunks-Taken :
    (n : ℕ) (b : Bounds) (p : Partition)
    → b.step ≡ 1
    → 0 < b.chunksize
    → p.next_lower_bound + n * b.chunksize < 2 ^ 64
    → Taken n b p
take_chunks-Taken zero b p s c small = no_calls-Taken b p
take_chunks-Taken (suc n) b p s c small =
    let more : suc n * b.chunksize ≡ b.chunksize + n * b.chunksize = omega arith in
    let fits : p.next_lower_bound + b.chunksize < 2 ^ 64 = omega arith in
    let ih = take_chunks-Taken n b (moved b p) s c (omega arith) in
    elim (Bool-cases (ltb p.next_lower_bound p.upper_bound)) [
      | inl e ↦
          let lt : p.next_lower_bound < p.upper_bound = ltb→lt _ _ e in
          let q = take_chunks_some b p s fits n e in
          record {
            chain =
                rw (q, more)
                  (
                    omega arith,
                    omega arith,
                    rw (add_assoc p.next_lower_bound b.chunksize (n * b.chunksize)) at ih.chain,
                  );
            chunks = rw q (omega arith, omega arith, ih.chunks);
            decrements = rw (q, more) (ground (arith, ih.decrements));
          }
      | inr e ↦
          let q = take_chunks_none b p s fits n e in
          record {
            chain =
                rw (q, more, ← add_assoc p.next_lower_bound b.chunksize (n * b.chunksize), passed e)
                  ih.chain;
            chunks = rw q ih.chunks;
            decrements = rw (q, more) (ground (arith, ih.decrements));
          }
    ]
  where
    passed :
        ltb p.next_lower_bound p.upper_bound ≡ false
        → min p.next_lower_bound p.upper_bound
          ≡ min (p.next_lower_bound + b.chunksize) p.upper_bound
    passed e = let le : p.upper_bound ≤ p.next_lower_bound = ground arith in omega arith

-- With calls enough for the whole partition, the chunks cover it exactly.
pub take_chunks_cover :
    (n : ℕ) (b : Bounds) (p : Partition)
    → b.step ≡ 1
    → 0 < b.chunksize
    → p.next_lower_bound + n * b.chunksize < 2 ^ 64
    → p.next_lower_bound ≤ p.upper_bound
    → p.upper_bound ≤ p.next_lower_bound + n * b.chunksize
    → Chain p.next_lower_bound p.upper_bound (take_chunks n b p).1
take_chunks_cover n b p s c small le enough =
    let first : min p.next_lower_bound p.upper_bound ≡ p.next_lower_bound = omega arith in
    let last : min (p.next_lower_bound + n * b.chunksize) p.upper_bound ≡ p.upper_bound =
      omega arith in
    rw (first, last) at (take_chunks-Taken n b p s c small).chain
