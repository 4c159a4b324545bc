-- ===== src/Discrete.antt =====
-- The discrete dependency system (src/dependencies/discrete): the accesses of the tasks to one
-- address, their satisfiability, and their removal.
pub mod Access
pub mod Groups
pub mod Sequence
pub mod Invariant
pub mod Reevaluate
pub mod Unregister
pub mod Upgrade
pub mod Register
pub mod Pending
pub mod Registered
pub mod RegisteredBelow
pub mod History
pub mod Safety
pub mod Ready
pub mod UpgradeLaws
mod Examples
