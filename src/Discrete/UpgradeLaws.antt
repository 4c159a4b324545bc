-- ===== src/Discrete/UpgradeLaws.antt =====
-- When the upgrades keep the promises of a new access, and when they do not.
use nanos.Common.{
  ℕ, ◌+◌, ◌≡◌, refl, Bool, true, false, ◌&&◌, Option, none, some, arith, if◌then◌else◌,
}
use nanos.Discrete.Access.{
  Header, DataAccessType, read, write, readwrite, evaluate, evaluate_satisfiability,
}
use nanos.Discrete.Groups.{Enabled}
use nanos.Discrete.Upgrade.{upgraded, upgrade_access}
use nanos.Discrete.Pending.{blocks}

-- An upgrade has kept its promises: the access is satisfied only if its effective previous lets it
-- be, and it gets one more predecessor exactly if the access begins to keep its task from running.
pub record KeepsPromises (previous : Option Header) (h h' : Header) (result : Bool) : Type 0 where
  pub sound : h'.satisfied ≡ true → Enabled previous h'
  pub counted : blocks h.originator h' ≡ blocks h.originator h + (if result then 0 else 1)
  pub same_task : h'.originator ≡ h.originator

-- An access of task `o`.
abbrev pub access : DataAccessType → Bool → Bool → ℕ → Header
access t weak satisfied o = record {
  access_type = t;
  weak = weak;
  satisfied = satisfied;
  originator = o;
  reduction_info = 0;
}

-- Two different ones of read, write and readwrite, but for a write that is followed by a read.
abbrev pub Combines : DataAccessType → DataAccessType → Type 0
Combines read write = Unit {0}
Combines read readwrite = Unit {0}
Combines write readwrite = Unit {0}
Combines readwrite read = Unit {0}
Combines readwrite write = Unit {0}
Combines _ _ = ⊥

-- What a strong access becomes.
abbrev pub combined : Option Header → DataAccessType → Bool → ℕ → Header
combined previous read satisfied o =
    access readwrite false (satisfied && evaluate_satisfiability previous readwrite) o
combined previous _ satisfied o = access readwrite false satisfied o

abbrev pub combined_result : Option Header → DataAccessType → Bool → Bool
combined_result previous read satisfied =
    if satisfied then evaluate_satisfiability previous readwrite else true
combined_result previous _ satisfied = true

-- A strong access of a task that is a read, write or readwrite one, when the task asks for a different
-- one of these three, strong as well, but for a read after a write: it becomes a readwrite access of the same task, which is satisfied only if its
-- effective previous access lets it be, and which is counted as a predecessor exactly if it begins
-- to keep the task from running.
pub upgrade-KeepsPromises :
    (previous : Option Header) (s t : DataAccessType) (satisfied : Bool) (o : ℕ)
    → Combines s t
    → (satisfied ≡ true → Enabled previous (access s false satisfied o))
    → (upgrade_access previous (access s false satisfied o) t false
        ≡ upgraded (combined previous s satisfied o) none (combined_result previous s satisfied))
      × KeepsPromises previous
          (access s false satisfied o)
          (combined previous s satisfied o)
          (combined_result previous s satisfied)
unfolding upgrade_access evaluate
upgrade-KeepsPromises previous read write true o c e = (ground arith, ground arith)
upgrade-KeepsPromises previous read write false o c e = (ground arith, ground arith)
upgrade-KeepsPromises previous read readwrite true o c e = (ground arith, ground arith)
upgrade-KeepsPromises previous read readwrite false o c e = (ground arith, ground arith)
upgrade-KeepsPromises previous write readwrite b o c e = (ground arith, ground arith)
upgrade-KeepsPromises previous readwrite read b o c e = (ground arith, ground arith)
upgrade-KeepsPromises previous readwrite write b o c e = (ground arith, ground arith)
upgrade-KeepsPromises previous _ _ b o c e = absurd c

-- A task that registers a read, strong or weak, after a strong write of the same address: the write
-- is forgotten. Its access becomes a read, and the read of another task behind it is satisfied
-- whenever it is, while the task may still write.
pub upgrade_forgets_write :
    (previous : Option Header) (satisfied weak : Bool) (o : ℕ)
    → (upgrade_access previous (access write false satisfied o) read weak
        ≡ upgraded (access read false satisfied o) none true)
      × (evaluate (some (access read false satisfied o)) read 0 ≡ satisfied)
unfolding upgrade_access evaluate
upgrade_forgets_write previous true true o = (refl, refl)
upgrade_forgets_write previous true false o = (refl, refl)
upgrade_forgets_write previous false true o = (refl, refl)
upgrade_forgets_write previous false false o = (refl, refl)

-- The types of an access that is neither read nor concurrent nor a reduction.
abbrev pub Writes : DataAccessType → Type 0
Writes write = Unit {0}
Writes readwrite = Unit {0}
Writes _ = ⊥

-- A weak write or readwrite access that is not satisfied, of a task that also asks for a strong one:
-- the access begins to keep the task from running, but the call reports no new predecessor.
pub upgrade_uncounted :
    (previous : Option Header) (s t : DataAccessType) (o : ℕ)
    → Writes s
    → Writes t
    → (h' : Header) × (upgrade_access previous (access s true false o) t false
        ≡ upgraded h' none true)
      × (blocks o (access s true false o) ≡ 0)
      × (blocks o h' ≡ 1)
unfolding upgrade_access
upgrade_uncounted previous write write o a b =
    (access write false false o, refl, refl, ground arith)
upgrade_uncounted previous write readwrite o a b =
    (access readwrite false false o, refl, refl, ground arith)
upgrade_uncounted previous readwrite write o a b =
    (access readwrite false false o, refl, refl, ground arith)
upgrade_uncounted previous readwrite readwrite o a b =
    (access readwrite false false o, refl, refl, ground arith)
upgrade_uncounted previous _ _ o a b = absurd (ground arith)

-- A weak read that is satisfied behind another access, of a task that also asks for a weak write or
-- readwrite access: the access keeps no task from running, but the call reports a predecessor.
pub upgrade_overcounted :
    (p : Header) (t : DataAccessType) (o : ℕ)
    → Writes t
    → (h' : Header) × (upgrade_access (some p) (access read true true o) t true
        ≡ upgraded h' none false)
      × (blocks o h' ≡ 0)
unfolding upgrade_access evaluate_satisfiability
upgrade_overcounted p write o a = (access readwrite true false o, ground arith, ground arith)
upgrade_overcounted p readwrite o a = (access readwrite true false o, ground arith, ground arith)
upgrade_overcounted p _ o a = absurd a
