-- ===== src/Fragmented.antt =====
-- The fragmented dependency system (src/dependencies/linear-regions-fragmented), the default of the
-- runtime: the status of an access, what a change of it causes, and the chain of the accesses that
-- the children of one task make to one region.
pub mod Access
pub mod Effects
pub mod Changes
pub mod Update
pub mod Chain
pub mod Sent
pub mod Sends
pub mod Fed
pub mod Linked
pub mod Safety
pub mod Quiet
pub mod Counted
pub mod Ready
pub mod Examples
