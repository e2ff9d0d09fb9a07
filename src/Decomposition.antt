-- ===== src/Decomposition.antt =====
-- core/domain_decomposition: temporary workstreams, and the graph of what they depend on.
pub mod Graph
pub mod Resolution
pub mod Accepted
pub mod Decomposer
pub mod Decomposed
pub mod Examples
