-- ===== src/Fragmented/Access.antt =====
-- src/dependencies/linear-regions-fragmented/DataAccess.hpp, DataAccessLink.hpp and
-- DataAccessObjectType.hpp. A task is a number, `std::bitset` is a field for each bit, and a
-- `boost::dynamic_bitset` of CPUs is the list of its bits. Regions are left out: all objects here are
-- of one region.
use nanos.Common.{
  ℕ, Bool, true, false, ◌&&◌, ◌||◌, not, Option, none, some, List, [], ◌==◌, if◌then◌else◌,
}
use nanos.AccessType.{DataAccessType, is_read, is_concurrent, is_reduction}

pub data DataAccessObjectType : Type 0 where
  access_type fragment_type taskwait_type top_level_sink_type : DataAccessObjectType

abbrev pub is_access : DataAccessObjectType → Bool
is_access access_type = true
is_access _ = false

abbrev pub is_taskwait : DataAccessObjectType → Bool
is_taskwait taskwait_type = true
is_taskwait _ = false

abbrev pub is_top_level_sink : DataAccessObjectType → Bool
is_top_level_sink top_level_sink_type = true
is_top_level_sink _ = false

-- A link that is not null.
pub record DataAccessLink : Type 0 where
  pub task : ℕ
  pub object_type : DataAccessObjectType

-- A `ReductionInfo` by its address, with the index that `getTypeAndOperatorIndex` returns.
pub record ReductionInfo : Type 0 where
  pub address : ℕ
  pub type_and_operator_index : ℕ

-- Whether two pointers are equal.
abbrev pub same_info : Option ReductionInfo → Option ReductionInfo → Bool
same_info none none = true
same_info none (some j) = false
same_info (some i) none = false
same_info (some i) (some j) = i.address == j.address

abbrev pub is_null : Option ReductionInfo → Bool
is_null none = true
is_null (some i) = false

pub record DataAccess : Type 0 where
  pub object_type : DataAccessObjectType
  pub type : DataAccessType
  pub weak : Bool
  pub originator : ℕ
  pub reduction_type_and_operator_index : ℕ
  pub registered : Bool
  pub complete : Bool
  pub read_satisfied : Bool
  pub write_satisfied : Bool
  pub concurrent_satisfied : Bool
  pub received_reduction_info : Bool
  pub allocated_reduction_info : Bool
  pub received_reduction_cpu_set : Bool
  pub read_satisfiability_propagation_inhibited : Bool
  pub concurrent_satisfiability_propagation_inhibited : Bool
  pub reduction_info_propagation_inhibited : Bool
  pub has_subaccesses : Bool
  pub in_bottom_map : Bool
  pub topmost : Bool
  pub top_level : Bool
  pub next : Option DataAccessLink
  pub reduction_info : Option ReductionInfo
  pub previous_reduction_info : Option ReductionInfo
  pub reduction_cpu_set : List Bool
  pub previous_reduction_cpu_set : List Bool

-- The constructor, with no status and no next; `no_cpus` is the empty set of all the CPUs.
unfoldable pub create_access :
    DataAccessObjectType
    → DataAccessType
    → (weak : Bool) → (originator : ℕ) → (index : ℕ) → List Bool
    → DataAccess
create_access object_type type weak originator index no_cpus = record {
  object_type = object_type;
  type = type;
  weak = weak;
  originator = originator;
  reduction_type_and_operator_index = index;
  registered = false;
  complete = false;
  read_satisfied = false;
  write_satisfied = false;
  concurrent_satisfied = false;
  received_reduction_info = false;
  allocated_reduction_info = false;
  received_reduction_cpu_set = false;
  read_satisfiability_propagation_inhibited = false;
  concurrent_satisfiability_propagation_inhibited = false;
  reduction_info_propagation_inhibited = false;
  has_subaccesses = false;
  in_bottom_map = false;
  topmost = false;
  top_level = false;
  next = none;
  reduction_info = none;
  previous_reduction_info = none;
  reduction_cpu_set = if is_reduction type then no_cpus else [];
  previous_reduction_cpu_set = [];
}

abbrev pub has_link : Option DataAccessLink → Bool
has_link none = false
has_link (some l) = true

abbrev pub has_next : DataAccess → Bool
has_next a = has_link a.next

-- `satisfied`
unfoldable pub satisfied : DataAccess → Bool
satisfied a =
    let received_structures =
      a.received_reduction_info
      && (is_null a.previous_reduction_info || a.received_reduction_cpu_set) in
    if is_read a.type
    then a.read_satisfied && received_structures
    else if is_concurrent a.type
    then a.concurrent_satisfied && received_structures
    else if is_reduction a.type
    then a.received_reduction_info
      && (a.write_satisfied
          || (not (is_null a.reduction_info)
              && same_info a.reduction_info a.previous_reduction_info))
    else a.read_satisfied && a.write_satisfied && received_structures
