-- ===== src/Execution.antt =====
-- execution/: types, ledger rows, and the service's operations.
pub mod Admission
pub mod Types
pub mod Rows
pub mod Ledger
pub mod World
pub mod Lease
pub mod Success
pub mod Claim
pub mod Cancel
pub mod Restore
pub mod Retention
pub mod Projection
pub mod Evolution
pub mod Service
pub mod Examples
