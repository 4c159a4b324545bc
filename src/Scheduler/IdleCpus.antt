-- ===== src/Scheduler/IdleCpus.antt =====
-- The set of idle CPUs: `_idleCPUs` of src/executors/threads/CPUManager.hpp.
use nanos.Common.{
  ℕ, zero, suc, Bool, true, false, Option, none, some, List, [], ◌∷◌, ◌≡◌, refl, arith,
  if◌then◌else◌, ◌||◌, ◌⊎◌, inl, inr, ap,
}

unfoldable pub cpu_becomes_idle : ℕ → List Bool → List Bool
cpu_becomes_idle cpu [] = []
cpu_becomes_idle zero (b ∷ rest) = true ∷ rest
cpu_becomes_idle (suc cpu) (b ∷ rest) = b ∷ cpu_becomes_idle cpu rest

-- The idle CPU with the least identifier, which is idle no more.
unfoldable pub get_idle_cpu : List Bool → List Bool × Option ℕ
get_idle_cpu [] = ([], none)
get_idle_cpu (true ∷ rest) = (false ∷ rest, some 0)
get_idle_cpu (false ∷ rest) =
    let (others, found) = get_idle_cpu rest in
    (false ∷ others, elim found [ none ↦ none | some cpu ↦ some (suc cpu) ])

-- All idle CPUs, of a set whose first CPU has the identifier `first`.
unfoldable pub get_idle_cpus : ℕ → List Bool → List Bool × List ℕ
get_idle_cpus first [] = ([], [])
get_idle_cpus first (b ∷ rest) =
    let (others, found) = get_idle_cpus (suc first) rest in
    (false ∷ others, if b then first ∷ found else found)

unfoldable pub unidle_cpu : ℕ → List Bool → List Bool × Bool
unidle_cpu cpu [] = ([], false)
unidle_cpu zero (b ∷ rest) = (false ∷ rest, b)
unidle_cpu (suc cpu) (b ∷ rest) =
    let (others, was_idle) = unidle_cpu cpu rest in (b ∷ others, was_idle)

abbrev pub is_idle : ℕ → List Bool → Bool
is_idle cpu [] = false
is_idle zero (b ∷ rest) = b
is_idle (suc cpu) (b ∷ rest) = is_idle cpu rest

abbrev pub any_idle : List Bool → Bool
any_idle [] = false
any_idle (b ∷ rest) = b || any_idle rest

pub any_idle-is_idle : (cpu : ℕ) (cpus : List Bool) → is_idle cpu cpus ≡ true → any_idle cpus ≡ true
any_idle-is_idle cpu [] e = ground arith
any_idle-is_idle zero (b ∷ rest) e = ground arith
any_idle-is_idle (suc cpu) (b ∷ rest) e = ground (arith, any_idle-is_idle cpu rest e)

pub get_idle_cpu-any_idle :
    (cpus : List Bool) → any_idle cpus ≡ true → (cpu : ℕ) × ((get_idle_cpu cpus).1 ≡ some cpu)
unfolding get_idle_cpu
get_idle_cpu-any_idle [] e = ground arith
get_idle_cpu-any_idle (true ∷ rest) e = (0, refl)
get_idle_cpu-any_idle (false ∷ rest) e =
    let (cpu, h) = get_idle_cpu-any_idle rest e in (suc cpu, rw h refl)

pub any_idle-get_idle_cpu :
    (cpus : List Bool) → any_idle (get_idle_cpu cpus).0 ≡ true → any_idle cpus ≡ true
unfolding get_idle_cpu
any_idle-get_idle_cpu [] e = e
any_idle-get_idle_cpu (true ∷ rest) e = refl
any_idle-get_idle_cpu (false ∷ rest) e = any_idle-get_idle_cpu rest e

pub is_idle-get_idle_cpu :
    (cpu : ℕ) (cpus : List Bool)
    → is_idle cpu (get_idle_cpu cpus).0 ≡ true
    → is_idle cpu cpus ≡ true
unfolding get_idle_cpu
is_idle-get_idle_cpu cpu [] e = e
is_idle-get_idle_cpu zero (true ∷ rest) e = refl
is_idle-get_idle_cpu zero (false ∷ rest) e = e
is_idle-get_idle_cpu (suc cpu) (true ∷ rest) e = e
is_idle-get_idle_cpu (suc cpu) (false ∷ rest) e = is_idle-get_idle_cpu cpu rest e

pub is_idle-found :
    (cpus : List Bool) (cpu : ℕ) → (get_idle_cpu cpus).1 ≡ some cpu → is_idle cpu cpus ≡ true
unfolding get_idle_cpu
is_idle-found [] cpu e = ground arith
is_idle-found (true ∷ rest) zero e = refl
is_idle-found (true ∷ rest) (suc cpu) e = ground arith
is_idle-found (false ∷ rest) zero e = ground arith
is_idle-found (false ∷ rest) (suc cpu) e = ground (arith, is_idle-found rest cpu)

pub is_idle-cpu_becomes_idle :
    (cpu other : ℕ) (cpus : List Bool)
    → is_idle cpu (cpu_becomes_idle other cpus) ≡ true
    → (cpu ≡ other) ⊎ (is_idle cpu cpus ≡ true)
unfolding cpu_becomes_idle
is_idle-cpu_becomes_idle cpu other [] e = inr e
is_idle-cpu_becomes_idle zero zero (b ∷ rest) e = inl refl
is_idle-cpu_becomes_idle zero (suc other) (b ∷ rest) e = inr e
is_idle-cpu_becomes_idle (suc cpu) zero (b ∷ rest) e = inr e
is_idle-cpu_becomes_idle (suc cpu) (suc other) (b ∷ rest) e =
    elim (is_idle-cpu_becomes_idle cpu other rest e) [ inl h ↦ inl (ap suc h) | inr h ↦ inr h ]
