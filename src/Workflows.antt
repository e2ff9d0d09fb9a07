-- ===== src/Workflows.antt =====
-- core/workflows: the developer and reviewer workflow, with its durable checkpoints.
pub mod Types
pub mod Stages
pub mod Checkpoints
pub mod Orchestrator
pub mod Moves
pub mod Committed
pub mod Escalated
pub mod Cycles
pub mod Ended
pub mod Truthful
pub mod Examples
