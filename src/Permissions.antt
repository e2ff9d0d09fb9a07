-- ===== src/Permissions.antt =====
-- core/permissions and infrastructure/permissions/policy.py: who may run which tool.
pub mod Types
pub mod Policy
pub mod Engine
pub mod Authority
pub mod Audited
pub mod Granted
pub mod Examples
