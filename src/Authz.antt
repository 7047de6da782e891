-- ===== src/Authz.antt =====
-- internal/platform/authz: permissions, roles, and the decisions of the evaluator.
pub mod Permissions
pub mod Sets
pub mod Roles
pub mod Principal
pub mod Rules
pub mod Evaluator
