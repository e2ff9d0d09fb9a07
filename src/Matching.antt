-- ===== src/Matching.antt =====
-- core/agent_registry: the matcher, which ranks the agents that a workstream may have.
pub mod Matcher
pub mod Ranked
pub mod Examples
