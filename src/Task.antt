-- ===== src/Task.antt =====
-- The task object (src/tasks): its atomic counters and its life cycle.
pub mod Counter
pub mod Lifecycle
