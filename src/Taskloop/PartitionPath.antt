-- ===== src/Taskloop/PartitionPath.antt =====
-- `Taskloop::getPartitionPath` of src/tasks/Taskloop.cpp, without the distribution function: the order
-- in which a collaborator visits the partitions.
use nanos.Common.{
  ℕ, zero, suc, ◌+◌, ◌-◌, ◌%◌, ◌<◌, ◌≡◌, List, [], ◌∷◌, some, ap, sym, ◌∙◌, get_elem?, arith,
}
use native.Mathlib.Nat.{mod-lt, mod-eq_of_lt, mod-add-mod, add-mod-mod, add-mod_right, add-zero}

-- The loop with `left` partitions to go.
unfoldable pub path_from : (partition_count left partition : ℕ) → List ℕ
path_from n zero partition = []
path_from n (suc left) partition = partition ∷ path_from n left ((partition + 1) % n)

unfoldable pub get_partition_path : (partition_count cpu_id : ℕ) → List ℕ
unfolding path_from
get_partition_path n cpu = path_from n n (cpu % n)

next_step : (n p k : ℕ) → ((p + 1) % n + k) % n ≡ (p + suc k) % n
next_step n p k = mod-add-mod (p + 1) n k ∙ ap (λ t. t % n) (omega arith)

path_from-get :
    (n left p i : ℕ)
    → 0 < n
    → p < n
    → i < left
    → get_elem? (path_from n left p) i ≡ some ((p + i) % n)
unfolding path_from
path_from-get n zero p i h q l = absurd (omega arith)
path_from-get n (suc left) p zero h q l = ap some (sym (rw add-zero (mod-eq_of_lt q)))
path_from-get n (suc left) p (suc i) h q l =
    path_from-get n left ((p + 1) % n) i h (mod-lt (p + 1) h) (omega arith)
    ∙ ap some (next_step n p i)

-- A collaborator visits every partition: from its CPU's own on, in order, and round.
pub get_partition_path_visits :
    (n cpu j : ℕ)
    → 0 < n
    → j < n
    → (i : ℕ) × (i < n) × (get_elem? (get_partition_path n cpu) i ≡ some j)
unfolding get_partition_path
get_partition_path_visits n cpu j h l = (
  (j + n - cpu % n) % n,
  mod-lt (j + n - cpu % n) h,
  path_from-get n n (cpu % n) ((j + n - cpu % n) % n) h (mod-lt cpu h) (mod-lt (j + n - cpu % n) h)
      ∙ ap some (
          add-mod-mod (cpu % n) (j + n - cpu % n) n
          ∙ ap (λ t. t % n) distance
          ∙ add-mod_right j n
          ∙ mod-eq_of_lt l),
)
  where
    distance : cpu % n + (j + n - cpu % n) ≡ j + n
    distance = omega (arith, mod-lt cpu h)
