-- ===== src/Career.antt =====
-- core/career: recommendations on the seniority and the autonomy of an agent.
pub mod Policy
pub mod Coherent
pub mod Examples
