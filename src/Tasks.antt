-- ===== src/Tasks.antt =====
-- core/tasks/state_machine.py and infrastructure/database/task_status_guard.py: the life cycle of
-- a task, its audited transitions, and the guard that a flush of the database session runs.
pub mod Graph
pub mod Event
pub mod StateMachine
pub mod Guard
pub mod Walks
pub mod Invariant
pub mod Reach
pub mod Rows
pub mod Accept
pub mod Examples
