-- ===== src/Lib.antt =====
-- Nanos6, the runtime of the OmpSs-2 task-parallel programming model: a verification library.
--
-- A program creates tasks that declare the data that they read and write. The dependency system
-- decides when a task may run, the task object counts what still keeps it from running, from being
-- woken up and from being disposed of, and worker threads run the tasks.
--
-- Discrete models the dependency system of src/dependencies/discrete: Access has the types of access
-- and evaluateSatisfiability, Sequence has the hierarchy of access sequences of one address with
-- reevaluateAndPropagateSatisfiability and unregisterDataAccess, Upgrade and Register have
-- upgradeAccess and registerTaskDataAccess. Groups, Invariant, Reevaluate, Unregister, Registered,
-- RegisteredBelow and Pending carry the proofs, History has the step relation, and Safety, Ready and
-- UpgradeLaws have the theorems.
--
-- Fragmented models the default dependency system, src/dependencies/linear-regions-fragmented, for the
-- accesses of sibling tasks to one region: Access has DataAccess with its status bits, Effects has
-- DataAccessStatusEffects, Changes has handleDataAccessStatusChanges, Update has
-- applyUpdateOperationOnAccess and the other changes of an access, and Chain the order in which threads
-- make them. Sent, Sends, Fed, Linked and Counted carry the proofs; Safety, Quiet and Ready have the
-- theorems. AccessType has the types of access that both systems share.
--
-- Task.Counter models the atomic counters of src/tasks/Task.hpp and processSatisfiedOriginators.
-- Task.Lifecycle has the two countdowns of one task and the code around them, in steps with one atomic
-- operation each: markAsFinished and markAllChildrenAsFinished (both in src/tasks/TaskImplementation.hpp),
-- the end of WorkerThread::handleTask, nanos6_decrease_task_event_counter and a round of
-- TaskFinalization::disposeOrUnblockTask. Task.Lifecycle.History has nanos6_taskwait and every order of those
-- steps, Invariant, Turns and Kept what they keep, and Promise what follows.
--
-- Taskloop.Split models TaskloopLogic::splitIterations, Taskloop.Chunks models TaskloopInfo::initialize
-- and the calls of Taskloop::getPendingIterationsFromPartition by collaborators, and
-- Taskloop.PartitionPath models Taskloop::getPartitionPath; Taskloop.Drained runs a whole loop.
--
-- Region models src/dependencies/linear-regions/DataAccessRegion.hpp, and Region.Bytes relates it to
-- sets of bytes; Region.Fragments has processIntersectingFragments. RegionMap models the map of disjoint
-- regions of IntrusiveLinearRegionMap.hpp and IntrusiveLinearRegionMapImplementation.hpp there, as the list of
-- its nodes in order: Traversal and Gaps are about processIntersecting and processIntersectingAndMissing;
-- Tree has the fragmentation on the tree of boost, which is a parameter; Pieces, Placed, Fragmentation
-- and Refinement carry its proof; Insertion and Replacement are about insertion and replace.
--
-- Multidimensional models how a region of several dimensions is registered:
-- src/dependencies/MultidimensionalAPITraversal.hpp and MultidimensionalAPI.hpp in
-- src/dependencies/linear-regions and src/dependencies/discrete. Coordinates says which bytes are in such
-- a region, Rows is about the linear regions for them, Reductions about the calls for a reduction, and
-- Extent about the one region of the discrete system.
--
-- Memory models src/memory/vmm: the areas of VirtualMemoryArea.hpp, Cluster the management of a cluster
-- node with setupMemoryLayout, the allocations and findNUMA, and Smp allocLocalNUMA without a cluster.
-- Rounding and Blocks are about one area, Tiles and Ordered about the areas of a node, and Numa about any
-- sequence of allocations.
--
-- CpuActivation models the status of a CPU and the loops of
-- src/executors/threads/CPUActivation.hpp, and CpuActivation.Rounds their interleaving.
--
-- Scheduler models src/scheduling: Naive, Fifo and ImmediateSuccessor have the schedulers of those names,
-- IdleCpus the set of idle CPUs of src/executors/threads/CPUManager.hpp, and Interface what the three
-- have in common and addReadyTask of src/scheduling/Scheduler.hpp. Bags shows that they fill it, Wakeup
-- has the step relation of CPUs that sleep and are resumed, Calls what single calls do there, and Asked
-- and Awake its invariants; LostWakeup is about the point at which the naive and
-- FIFO schedulers release their lock. Polling has ImmediateSuccessorWithPollingScheduler and the polling loop of src/scheduling/Scheduler.cpp, Delivery
-- the steps of the threads that add tasks and of those that poll, and Delivered what follows.
-- Priority has the default scheduler, PriorityScheduler, without its polling slot, PriorityHistory any
-- sequence of its calls, and PriorityOrder and PriorityBest the order of its classes.
--
-- UserMutex models src/system/ompss/UserMutex.hpp and UserMutex.cpp, and UserMutex.Exclusion the tasks
-- that use one mutex.
--
-- TicketSpinLock and RwTicketSpinLock model the locks of src/lowlevel/TicketSpinLock.hpp and
-- src/lowlevel/RWTicketSpinLock.hpp; the schedulers and the dependency systems use the first. Their modules
-- Exclusion have the threads that use one lock.
--
-- The parts meet at the task: Discrete decreases the predecessors of a task, whose last decrement hands
-- it to the scheduler; the end of the task, in Task.Lifecycle, releases the accesses that Discrete
-- removes; a taskloop is a task whose collaborators are its children.
--
-- An access is named by its position in the hierarchy instead of by its address; the intrusive lists
-- are lists, an int of a counter is its 32-bit pattern, and a size_t or an address is a number below
-- 2 ^ 64. Assertions are those of a release build, which does not evaluate them. An atomic
-- operation, or what a lock protects, is one step, and threads are modelled by the order of these
-- steps. All recursion is structural;
-- take_chunks and drain take a number, that of their calls, and drain-initialize says how many are enough.
--
-- Not modelled: instrumentation, the fragmentation of regions and the nesting of accesses in the
-- fragmented dependency system, the other linear-regions dependency systems, the traversals of a map that
-- restart or see recent additions, the other schedulers, the thread manager, the pool allocator and the
-- clusters.
pub mod Common
pub mod AccessType
pub mod Task
pub mod Discrete
pub mod Fragmented
pub mod Region
pub mod RegionMap
pub mod Multidimensional
pub mod Memory
pub mod Taskloop
pub mod CpuActivation
pub mod Scheduler
pub mod UserMutex
pub mod TicketSpinLock
pub mod RwTicketSpinLock
