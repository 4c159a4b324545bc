-- ===== src/Fragmented/Chain.antt =====
-- The accesses of the children of one task to one region, from the oldest on, each linked to the next:
-- how `registerTaskDataAccesses` adds one, and the order in which other threads complete them and
-- process their delayed operations (src/dependencies/linear-regions-fragmented/DataAccessRegistration.cpp).
use nanos.Common.{ℕ, Bool, true, false, List, [], ◌∷◌, ◌++◌, ◌≡◌, if◌then◌else◌}
use nanos.AccessType.{DataAccessType, is_reduction}
use nanos.Task.Lifecycle.{new_task}
use nanos.Fragmented.Access.{DataAccess, DataAccessLink, access_type, create_access}
use nanos.Fragmented.Changes.{UpdateOperation, Owner, Changes, discount_predecessors}
use nanos.Fragmented.Update.{
  change, finalize_access, apply_update_operation_on_access, registered_access, with_reduction_info,
  fully_satisfied, linked, allocates,
}

-- An access, its task, the operations that are delayed for it, and whether `registerTaskDataAccesses`
-- of its task has not returned yet.
pub record Node : Type 0 where
  pub access : DataAccess
  pub owner : Owner
  pub incoming : List UpdateOperation
  pub registering : Bool

-- The operations that a change of one access delays go to the next one.
abbrev pub send : List UpdateOperation → List Node → List Node
send us [] = []
send us (n ∷ ns) = record n { incoming = n.incoming ++ us } ∷ ns

-- What a task declares: its access, whether the task has a wait clause, and the address that an
-- allocation of a `ReductionInfo` returns.
pub record Declaration : Type 0 where
  pub type : DataAccessType
  pub weak : Bool
  pub task : ℕ
  pub index : ℕ
  pub no_cpus : List Bool
  pub wait_flag : Bool
  pub address : ℕ

-- The task after `increasePredecessors(2)`.
abbrev pub new_owner : Declaration → Owner
new_owner d = record {
  task = new_task d.wait_flag;
  removal_blockers = 0;
  live_taskwait_fragments = 0;
  predecessors = 2;
  ready = 0;
  removable = 0;
}

abbrev pub declared : Declaration → DataAccess
declared d = create_access access_type d.type d.weak d.task d.index d.no_cpus

abbrev pub link_to : Declaration → DataAccessLink
link_to d = record { task = d.task; object_type = access_type }

module _ (parent : ℕ → ℕ) where
  -- `linkTaskAccesses` up to the search for predecessors, and `allocateReductionInfo` if it is called.
  unfoldable pub prepare : (allocated : Bool) → Declaration → Changes
  unfolding change registered_access with_reduction_info create_access
  prepare allocated d =
      let c = change parent registered_access (declared d) (new_owner d) in
      if allocated then change parent (with_reduction_info d.address) c.access c.owner else c

  abbrev pub node : Changes → List UpdateOperation → Node
  node c us = record { access = c.access; owner = c.owner; incoming = us; registering = true }

  -- An access with no predecessor, and not of the parent either.
  unfoldable pub register_first : Declaration → Node
  unfolding prepare fully_satisfied
  register_first d =
      let c = prepare (is_reduction d.type) d in
      node (change parent fully_satisfied c.access c.owner) []

  -- An access that follows `previous`: what becomes of that, and of the new one.
  unfoldable pub register_after : Declaration → Node → Node × Node
  unfolding prepare linked
  register_after d previous =
      let c = prepare (allocates previous.access (declared d)) d in
      let p = change parent (linked (link_to d)) previous.access previous.owner in
      (record previous { access = p.access; owner = p.owner }, node c p.to_next)

  abbrev pub changed : Changes → Node → Node
  changed c n = record n { access = c.access; owner = c.owner }

  -- One thread does one step at one access.
  pub data Step : List Node → List Node → Type 0 where
    register_next :
        (d : Declaration) (n : Node)
        → Step (n ∷ []) ((register_after d n).0 ∷ (register_after d n).1 ∷ [])
    -- `decreasePredecessors(2)` at the end of `registerTaskDataAccesses`.
    end_registration :
        (n : Node) (ns : List Node)
        → n.registering ≡ true
        → Step
            (n ∷ ns)
            (record n { owner = discount_predecessors 2 n.owner; registering = false } ∷ ns)
    -- The task has ended, or has released the access before.
    finalize :
        (n : Node) (ns : List Node)
        → Step (n ∷ ns) (
            changed (finalize_access parent n.access n.owner) n
            ∷ send (finalize_access parent n.access n.owner).to_next ns)
    -- Operations are processed in any order, since they may be delayed by different threads.
    process :
        (n : Node) (ns : List Node) (u : UpdateOperation) (before after : List UpdateOperation)
        → n.incoming ≡ before ++ u ∷ after
        → Step (n ∷ ns) (
            record (changed (apply_update_operation_on_access parent u n.access n.owner) n) {
              incoming = before ++ after;
            }
            ∷ send (apply_update_operation_on_access parent u n.access n.owner).to_next ns)
    later : (n : Node) {ns ms : List Node} → Step ns ms → Step (n ∷ ns) (n ∷ ms)

  pub data Reach : List Node → Type 0 where
    start : (d : Declaration) → Reach (register_first d ∷ [])
    next : {ns ms : List Node} → Reach ns → Step ns ms → Reach ms
