-- ===== src/Escalation.antt =====
-- core/escalation: when an agent must stop and hand over.
pub mod Engine
pub mod Emitted
pub mod Examples
