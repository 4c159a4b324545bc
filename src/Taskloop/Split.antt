-- ===== src/Taskloop/Split.antt =====
-- src/tasks/TaskloopLogic.hpp: the partitions of an iteration space. Numbers are `size_t`, 64 bits.
use nanos.Common.{
  ℕ, zero, suc, ◌+◌, ◌-◌, ◌*◌, ◌/◌, ◌%◌, ◌^◌, ◌≤◌, ◌<◌, ◌≡◌, refl, min, List, [], ◌∷◌, leb, ltb,
  if◌then◌else◌, length, arith, ap, ◌∙◌, subst, ltb→lt, Bool-cases, inl, inr,
}
use native.Mathlib.Nat.{add-mul, mod-lt, div-add-mod'}

-- `nanos6_taskloop_bounds_t`
pub record Bounds : Type 0 where
  pub lower_bound : ℕ
  pub upper_bound : ℕ
  pub step : ℕ
  pub chunksize : ℕ

-- `getIterationCount`
unfoldable pub get_iteration_count : Bounds → ℕ
get_iteration_count b = (b.upper_bound + 2 ^ 64 - b.lower_bound) % 2 ^ 64

-- The loop of `splitIterations` with `left` partitions to go, of which the last `rest` get an extra
-- chunk.
unfoldable pub split_from :
    (chunks_per_partition rest chunksize upper_bound left lower_bound : ℕ) → List Bounds
split_from per rest chunk upper zero lower = []
split_from per rest chunk upper (suc left) lower =
    let extra_chunk = if leb (suc left) rest then 1 else 0 in
    let my_iterations = (per + extra_chunk) * chunk % 2 ^ 64 in
    let next = min ((lower + my_iterations) % 2 ^ 64) upper in
    record { lower_bound = lower; upper_bound = next; step = 1; chunksize = chunk }
    ∷ split_from per rest chunk upper left next

unfoldable pub total_chunks : Bounds → ℕ
unfolding get_iteration_count
total_chunks b =
    get_iteration_count b / b.chunksize
    + (if ltb 0 (get_iteration_count b % b.chunksize) then 1 else 0)

-- `splitIterations`
unfoldable pub split_iterations : ℕ → Bounds → List Bounds
unfolding split_from total_chunks
split_iterations n b =
    split_from (total_chunks b / n) (total_chunks b % n) b.chunksize b.upper_bound n b.lower_bound

-- Consecutive ranges from `lower` to `upper`.
abbrev pub Chain : ℕ → ℕ → List Bounds → Type 0
Chain lower upper [] = lower ≡ upper
Chain lower upper (b ∷ bs) =
    (b.lower_bound ≡ lower) × (lower ≤ b.upper_bound) × Chain b.upper_bound upper bs

-- The chunks of `left` partitions.
abbrev chunks_left : ℕ → ℕ → ℕ → ℕ
chunks_left per rest left = per * left + min left rest

chunks_left-suc :
    (per rest left : ℕ)
    → chunks_left per rest (suc left)
      ≡ per + (if leb (suc left) rest then 1 else 0) + chunks_left per rest left
chunks_left-suc per rest left = grind arith

no_wrap :
    (lower a r upper : ℕ)
    → lower + (a + r) < 2 ^ 64
    → min ((lower + a % 2 ^ 64) % 2 ^ 64) upper ≡ min (lower + a) upper
no_wrap lower a r upper h = omega arith

cap_again :
    (lower a r upper : ℕ) → min (lower + (a + r)) upper ≡ min (min (lower + a) upper + r) upper
cap_again lower a r upper = omega arith

chunks_left-mul :
    (per rest chunk left : ℕ)
    → chunks_left per rest (suc left) * chunk
      ≡ (per + (if leb (suc left) rest then 1 else 0)) * chunk + chunks_left per rest left * chunk
chunks_left-mul per rest chunk left =
    ap (λ (t : ℕ). t * chunk) (chunks_left-suc per rest left)
    ∙ add-mul (per + (if leb (suc left) rest then 1 else 0)) (chunks_left per rest left) chunk

split_from-Chain :
    (per rest chunk upper left lower : ℕ)
    → lower ≤ upper
    → lower + chunks_left per rest left * chunk < 2 ^ 64
    → Chain lower
        (min (lower + chunks_left per rest left * chunk) upper)
        (split_from per rest chunk upper left lower)
unfolding split_from
split_from-Chain per rest chunk upper zero lower h small =
    let none_left : chunks_left per rest 0 ≡ 0 = omega arith in
    omega (arith, ap (λ (t : ℕ). t * chunk) none_left)
split_from-Chain per rest chunk upper (suc left) lower h small =
    let a = (per + (if leb (suc left) rest then 1 else 0)) * chunk in
    let r = chunks_left per rest left * chunk in
    let fits : lower + (a + r) < 2 ^ 64 = rw chunks_left-mul at small in
    rw
      (chunks_left-mul per rest chunk left, cap_again lower a r upper, no_wrap lower a r upper fits)
      (
        refl,
        omega arith,
        split_from-Chain per rest chunk upper left (min (lower + a) upper) (omega arith)
            (omega arith),
      )

-- There are as many partitions as asked for.
pub length-split_iterations : (n : ℕ) (b : Bounds) → length (split_iterations n b) ≡ n
unfolding split_iterations
length-split_iterations n b =
    length-split_from (total_chunks b / n) (total_chunks b % n) b.chunksize b.upper_bound n
      b.lower_bound
  where
    length-split_from :
        (per rest chunk upper left lower : ℕ)
        → length (split_from per rest chunk upper left lower) ≡ left
    length-split_from per rest chunk upper zero lower = refl
    length-split_from per rest chunk upper (suc left) lower = ap suc (
        length-split_from per rest chunk upper left (
          min ((lower + (per + (if leb (suc left) rest then 1 else 0)) * chunk % 2 ^ 64) % 2 ^ 64)
            upper))

round_up :
    (t c : ℕ)
    → 0 < c
    → (t ≤ (t / c + (if ltb 0 (t % c) then 1 else 0)) * c)
      × ((t / c + (if ltb 0 (t % c) then 1 else 0)) * c < t + c)
round_up t c h = elim (Bool-cases (ltb 0 (t % c))) [
  | inl e ↦
      let some_left : 0 < t % c = ltb→lt 0 (t % c) e in
      rw e (omega (arith, div-add-mod' t c, mod-lt t h, add-mul (t / c) 1 c))
  | inr e ↦
      let z : t % c ≡ 0 = ground arith in
      rw e (omega (arith, div-add-mod' t c, add-mul (t / c) 0 c))
]

get_iteration_count_lem :
    (b : Bounds)
    → b.lower_bound ≤ b.upper_bound
    → b.upper_bound < 2 ^ 64
    → get_iteration_count b ≡ b.upper_bound - b.lower_bound
unfolding get_iteration_count
get_iteration_count_lem b l u = omega arith

-- There are chunks enough for all iterations, and less than one chunk too many.
total_chunks_bounds :
    (b : Bounds)
    → 0 < b.chunksize
    → b.lower_bound ≤ b.upper_bound
    → b.upper_bound < 2 ^ 64
    → (b.upper_bound ≤ b.lower_bound + total_chunks b * b.chunksize)
      × (b.lower_bound + total_chunks b * b.chunksize < b.upper_bound + b.chunksize)
unfolding total_chunks
total_chunks_bounds b c l u =
    omega (arith, round_up (get_iteration_count b) b.chunksize c, get_iteration_count_lem b l u)

-- The partitions of a normalised loop are consecutive and cover its iterations exactly, if the end
-- of the loop is at least a chunk away from the largest `size_t`.
pub split_iterations-Chain :
    (n : ℕ) (b : Bounds)
    → 0 < n
    → 0 < b.chunksize
    → b.lower_bound ≤ b.upper_bound
    → b.upper_bound + b.chunksize ≤ 2 ^ 64
    → Chain b.lower_bound b.upper_bound (split_iterations n b)
unfolding split_iterations
split_iterations-Chain n b pos c l u =
    subst (λ e. Chain b.lower_bound e (split_iterations n b)) reaches
      (split_from-Chain (total / n) (total % n) b.chunksize b.upper_bound n b.lower_bound l small)
  where
    total : ℕ
    total = total_chunks b

    all_left : chunks_left (total / n) (total % n) n ≡ total
    all_left = omega (arith, div-add-mod' total n, mod-lt total pos)

    scaled : chunks_left (total / n) (total % n) n * b.chunksize ≡ total * b.chunksize
    scaled = ap (λ (t : ℕ). t * b.chunksize) all_left

    small : b.lower_bound + chunks_left (total / n) (total % n) n * b.chunksize < 2 ^ 64
    small = omega (arith, scaled, total_chunks_bounds b c l (omega arith))

    reaches :
        min (b.lower_bound + chunks_left (total / n) (total % n) n * b.chunksize) b.upper_bound
        ≡ b.upper_bound
    reaches = omega (arith, scaled, total_chunks_bounds b c l (omega arith))
