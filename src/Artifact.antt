-- ===== src/Artifact.antt =====
-- internal/artifactgraph/domain/artifact.go: the canonical artifact model.
pub mod Version
pub mod Lifecycle
pub mod Operations
pub mod Links
