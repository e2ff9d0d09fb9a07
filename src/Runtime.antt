-- ===== src/Runtime.antt =====
-- core/runtime: the bounded loop of one agent.
pub mod Types
pub mod Stagnation
pub mod Machine
pub mod Loop
pub mod Triple
pub mod Bounds
pub mod Results
pub mod Streak
pub mod Examples
