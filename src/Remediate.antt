-- ===== src/Remediate.antt =====
-- internal/remediate: the guarded remediation control plane.
pub mod Types
pub mod Audit
pub mod Validate
pub mod Executor
pub mod Guard
pub mod Scenarios
