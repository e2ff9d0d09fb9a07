-- ===== src/Budget.antt =====
-- core/budget: the gate that checks one use of resources against the ceilings.
pub mod Engine
pub mod Ceilings
pub mod Examples
