-- ===== src/PullRequests.antt =====
-- core/pull_requests: the merge gate and its evidence.
pub mod Types
pub mod Gate
pub mod Evidence
pub mod Mergeable
pub mod Examples
