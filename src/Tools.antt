-- ===== src/Tools.antt =====
-- core/tools: the registry of tools, and the executor that runs one under audit.
pub mod Types
pub mod Registry
pub mod Executor
pub mod Traced
pub mod Lifecycle
pub mod Protocol
pub mod Guarantees
pub mod Examples
