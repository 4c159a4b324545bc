-- ===== src/Taskloop.antt =====
-- Taskloops (src/tasks/Taskloop*.hpp and Taskloop.cpp): how the iterations are split into
-- partitions, and how the collaborators take chunks from them.
pub mod Split
pub mod Chunks
pub mod PartitionPath
pub mod Drained
mod Examples
