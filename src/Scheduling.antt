-- ===== src/Scheduling.antt =====
-- core/scheduling: agents assigned to the tasks of several projects.
pub mod Scheduler
pub mod Exclusive
pub mod Matched
pub mod Stable
pub mod Examples
