-- ===== src/Graph.antt =====
-- internal/artifactgraph: the store of artifacts and versions, and the use cases over it.
pub mod Store
pub mod Lifecycle
pub mod Service
pub mod Commands
pub mod Approval
pub mod Governance
