-- ===== src/Remediate/Guard.antt =====
-- internal/remediate/guard.go: the Guard, one child module for each group of methods.
pub mod State
pub mod Propose
pub mod Approve
pub mod Execute
pub mod Settle
pub mod Queries
pub mod Transitions
pub mod Runs
pub mod Idempotency
pub mod Sweeps
pub mod Trail
