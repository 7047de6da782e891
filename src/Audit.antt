-- ===== src/Audit.antt =====
-- internal/audit: the records, their hash chain, and the trail that the service keeps.
pub mod Record
pub mod Chain
pub mod Service
pub mod Store
